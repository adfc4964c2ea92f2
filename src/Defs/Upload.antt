-- ===== src/Defs/Upload.antt =====
-- `UploadBody` of src/defs/server.rs: the body of an upload request, frame by frame.
pub mod Laws
use speedtest_cli_rust.Base.{
  ℕ, zero, suc, ◌+◌, ◌-◌, ◌*◌, min, Bool, true, false, Option, none, some, List, [], ◌∷◌, leb,
  if◌then◌else◌, length, take, drop,
}
use speedtest_cli_rust.Base.Text.{Bytes}
use speedtest_cli_rust.Defs.Counter.{BytesCounter, add}

-- `UPLOAD_CHUNK`
abbrev pub upload_chunk : ℕ
upload_chunk = 16 * 1024

-- `struct UploadBody`, less the counter, which the streams of a phase share.
pub record UploadBody : Type 0 where
  pub payload : Option Bytes
  pub pos : ℕ
  pub filler : Bytes

-- `UploadBody::new`; `random` is what `random_data(UPLOAD_CHUNK)` returns.
unfoldable pub new : Option Bytes → Bytes → UploadBody
new (some p) random = record { payload = some p; pos = 0; filler = [] }
new none random = record { payload = none; pos = 0; filler = random }

-- `size_hint`: the exact number of bytes to come, or no size at all.
abbrev hint_of : Option Bytes → ℕ → Option ℕ
hint_of (some p) pos = some (length p - pos)
hint_of none pos = none

unfoldable pub size_hint : UploadBody → Option ℕ
size_hint b = hint_of b.payload b.pos

-- `payload.slice(from..to)`
abbrev pub slice : ℕ → ℕ → Bytes → Bytes
slice from to p = take (to - from) (drop from p)

-- What a poll gives: the frame, the body and the counter after it.
pub record Polled : Type 0 where
  pub frame : Option Bytes
  pub body : UploadBody
  pub counter : BytesCounter

-- The frame goes out, and its bytes are counted.
abbrev hand_over : Bytes → UploadBody → BytesCounter → Polled
hand_over chunk b c = record { frame = some chunk; body = b; counter = add c (length chunk) }

abbrev poll_payload : Option Bytes → UploadBody → BytesCounter → Polled
poll_payload (some p) b c =
    if leb (length p) b.pos
    then record { frame = none; body = b; counter = c }
    else let end = min (b.pos + upload_chunk) (length p) in
      hand_over (slice b.pos end p) (record b { pos = end }) c
poll_payload none b c = hand_over b.filler b c

-- `poll_frame`
unfoldable pub poll_frame : UploadBody → BytesCounter → Polled
poll_frame b c = poll_payload b.payload b c
