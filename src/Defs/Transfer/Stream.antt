-- ===== src/Defs/Transfer/Stream.antt =====
-- How a transfer stream of src/defs/server.rs ends, and what it counts.
use speedtest_cli_rust.Base.{
  ℕ, ◌+◌, ◌%◌, ◌<◌, Bool, true, false, Option, none, some, List, [], ◌∷◌, ok, err, leb,
  if◌then◌else◌, length, inl, inr, ◌≡◌, ◌≢◌, refl, arith, Bool-cases, ◌∙◌,
}
use speedtest_cli_rust.Base.Text.{Bytes}
use speedtest_cli_rust.Output.{Output, Console}
use speedtest_cli_rust.Output.Streams.{stdout_text, stdout_text-write_debug}
use speedtest_cli_rust.Http.Body.{data_frame, trailers, failure}
use speedtest_cli_rust.Defs.Counter.{BytesCounter, add, u64_mod}
use speedtest_cli_rust.Defs.Transfer.{
  StreamEnd, completed, transfer_failed, request_failed, replaceable, Arrivals, stalls, ends,
  arrives, Answered, silent, answers, stream_deadline, is_due, read_frames, send_request, or_failed,
  read_response, counted, download_once, upload_once,
}

-- The data frames that come in time, up to the first that is late or broken.
unfoldable pub in_window : Option ℕ → Arrivals → List Bytes
in_window deadline stalls = []
in_window deadline (ends t) = []
in_window deadline (arrives t (data_frame d) more) =
    let rest = in_window deadline more in if is_due deadline t then d ∷ rest else []
in_window deadline (arrives t trailers more) =
    let rest = in_window deadline more in if is_due deadline t then rest else []
in_window deadline (arrives t (failure e) more) = []

-- The head of a response comes in time, and it is no error.
unfoldable pub has_head : Option ℕ → Answered → Bool
has_head deadline silent = false
has_head deadline (answers t (ok body)) = is_due deadline t
has_head deadline (answers t (err e)) = false

-- The frames of a response whose head comes in time.
unfoldable pub received : Option ℕ → Answered → List Bytes
received deadline silent = []
received deadline (answers t (ok body)) = if is_due deadline t then in_window deadline body else []
received deadline (answers t (err e)) = []

unfoldable pub bytes_of : List Bytes → ℕ
bytes_of [] = 0
bytes_of (d ∷ ds) = length d + bytes_of ds

-- A stream that has ended, and is replaced exactly if it had a response.
abbrev pub Ends : Bool → Option StreamEnd → Type 0
Ends had_head v = (e : StreamEnd) × (v ≡ some e) × (replaceable e ≡ had_head)

module _ (out : Output) (counts : ℕ → BytesCounter → BytesCounter) (d : ℕ) where
  read_frames-Ends :
      (a : Arrivals) (c : BytesCounter) (console : Console)
      → Ends true (or_failed (read_frames out counts (some d) a c console).value)
  unfolding read_frames replaceable
  read_frames-Ends stalls c console = (transfer_failed, refl, refl)
  read_frames-Ends (ends t) c console = elim (Bool-cases (leb t d)) [
    | inl e ↦ (completed, rw e refl, refl)
    | inr e ↦ (transfer_failed, rw e refl, refl)
  ]
  read_frames-Ends (arrives t (data_frame b) more) c console = elim (Bool-cases (leb t d)) [
    | inl e ↦ rw e (read_frames-Ends more (counts (length b) c) console)
    | inr e ↦ (transfer_failed, rw e refl, refl)
  ]
  read_frames-Ends (arrives t trailers more) c console = elim (Bool-cases (leb t d)) [
    | inl e ↦ rw e (read_frames-Ends more c console)
    | inr e ↦ (transfer_failed, rw e refl, refl)
  ]
  read_frames-Ends (arrives t (failure x) more) c console = (transfer_failed, ground arith, refl)

  read_response-Ends :
      (a : Answered) (c : BytesCounter) (console : Console)
      → Ends
          (has_head (some d) a)
          (read_response out counts (some d) (send_request out (some d) a console) c).value
  unfolding send_request replaceable has_head
  read_response-Ends silent c console = (request_failed, refl, refl)
  read_response-Ends (answers t (err e)) c console = (request_failed, refl, refl)
  read_response-Ends (answers t (ok body)) c console = elim (Bool-cases (leb t d)) [
    | inl e ↦ rw e (read_frames-Ends body c console)
    | inr e ↦ rw e (request_failed, refl, refl)
  ]

stream_deadline-some :
    (timeout now : ℕ) → timeout ≢ 0 → stream_deadline timeout now ≡ some (now + timeout)
unfolding stream_deadline
stream_deadline-some timeout now h = ground arith

-- With a timeout a stream ends, whatever the server sends and however long it waits, and it is
-- replaced exactly if the head of a response came in time: a download, and an upload with any
-- payload.
pub once-Ends :
    (out : Output) (timeout now polls : ℕ) (payload : Option Bytes) (random : Bytes) (a : Answered)
    (c : BytesCounter) (console : Console)
    → timeout ≢ 0
    → Ends (has_head (some (now + timeout)) a) (download_once out timeout now a c console).value
      × Ends
          (has_head (some (now + timeout)) a)
          (upload_once out timeout now polls payload random a c console).value
unfolding download_once upload_once
once-Ends out timeout now polls payload random a c console h =
    rw (stream_deadline-some timeout now h) (
      read_response-Ends out _ (now + timeout) a c console,
      read_response-Ends out _ (now + timeout) a _ console,
    )

-- What counting a frame adds, with the release build's wrap-around.
abbrev grown : BytesCounter → ℕ → ℕ
grown c n = (c.total + n) % u64_mod

counted-total : (n k : ℕ) (c : BytesCounter) → grown (counted n c) k ≡ grown c (n + k)
unfolding add
counted-total n k c = omega arith

read_frames-counts :
    (out : Output) (deadline : Option ℕ) (a : Arrivals) (c : BytesCounter) (console : Console)
    → c.total < u64_mod
    → (read_frames out counted deadline a c console).counter.total
      ≡ grown c (bytes_of (in_window deadline a))
unfolding read_frames in_window bytes_of
read_frames-counts out deadline stalls c console h = omega arith
read_frames-counts out deadline (ends t) c console h = omega arith
read_frames-counts out deadline (arrives t (data_frame d) more) c console h =
    elim (Bool-cases (is_due deadline t)) [
      | inl e ↦ rw e (
          read_frames-counts out deadline more (counted (length d) c) console (wraps (length d) c)
          ∙ counted-total (length d) (bytes_of (in_window deadline more)) c)
      | inr e ↦ rw e (omega arith)
    ]
  where
    wraps : (n : ℕ) (c : BytesCounter) → (counted n c).total < u64_mod
    wraps n c = unfold add in omega arith
read_frames-counts out deadline (arrives t trailers more) c console h =
    elim (Bool-cases (is_due deadline t)) [
      | inl e ↦ rw e (read_frames-counts out deadline more c console h)
      | inr e ↦ rw e (omega arith)
    ]
read_frames-counts out deadline (arrives t (failure x) more) c console h =
    elim (Bool-cases (is_due deadline t)) [
      | inl e ↦ rw e (omega arith)
      | inr e ↦ rw e (omega arith)
    ]

read_frames-stdout :
    (out : Output) (counts : ℕ → BytesCounter → BytesCounter) (deadline : Option ℕ) (a : Arrivals)
    (c : BytesCounter) (console : Console)
    → stdout_text (read_frames out counts deadline a c console).console ≡ stdout_text console
unfolding read_frames
read_frames-stdout out counts deadline stalls c console = refl
read_frames-stdout out counts deadline (ends t) c console = refl
read_frames-stdout out counts deadline (arrives t (data_frame d) more) c console =
    elim (Bool-cases (is_due deadline t)) [
      | inl e ↦ rw e (read_frames-stdout out counts deadline more (counts (length d) c) console)
      | inr e ↦ rw e refl
    ]
read_frames-stdout out counts deadline (arrives t trailers more) c console =
    elim (Bool-cases (is_due deadline t)) [
      | inl e ↦ rw e (read_frames-stdout out counts deadline more c console)
      | inr e ↦ rw e refl
    ]
read_frames-stdout out counts deadline (arrives t (failure x) more) c console =
    elim (Bool-cases (is_due deadline t)) [
      | inl e ↦ rw e (stdout_text-write_debug out _ console)
      | inr e ↦ rw e refl
    ]

-- A download counts, modulo 2^64, the bytes of the frames that came in time behind a head that came
-- in time, up to the first broken or late frame, and nothing else. What it says on the way stays
-- off the stream that scripts read.
pub download_once-counts :
    (out : Output) (timeout now : ℕ) (a : Answered) (c : BytesCounter) (console : Console)
    → c.total < u64_mod
    → let r = download_once out timeout now a c console in
      (r.counter.total ≡ (c.total + bytes_of (received (stream_deadline timeout now) a)) % u64_mod)
      × (stdout_text r.console ≡ stdout_text console)
unfolding download_once send_request received bytes_of
download_once-counts out timeout now a c console h = go (stream_deadline timeout now) a
  where
    go :
        (deadline : Option ℕ) (a : Answered)
        → let r = read_response out counted deadline (send_request out deadline a console) c in
          (r.counter.total ≡ grown c (bytes_of (received deadline a)))
          × (stdout_text r.console ≡ stdout_text console)
    go none silent = (omega arith, refl)
    go (some d) silent = (omega arith, refl)
    go none (answers t (err e)) = (omega arith, stdout_text-write_debug out _ console)
    go (some d) (answers t (err e)) = elim (Bool-cases (leb t d)) [
      | inl p ↦ (omega arith, rw p (stdout_text-write_debug out _ console))
      | inr p ↦ (omega arith, rw p refl)
    ]
    go none (answers t (ok body)) = (
      read_frames-counts out none body c console h,
      read_frames-stdout out counted none body c console,
    )
    go (some d) (answers t (ok body)) = elim (Bool-cases (leb t d)) [
      | inl p ↦ rw p (
        read_frames-counts out (some d) body c console h,
        read_frames-stdout out counted (some d) body c console,
      )
      | inr p ↦ rw p (omega arith, refl)
    ]
