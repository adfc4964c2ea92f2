-- ===== src/Defs/Transfer.antt =====
-- The transfer streams of src/defs/server.rs: `StreamEnd`, `download_once`, `upload_once`,
-- `stream_deadline`, `within` and `send_request`. What a server sends is a script of arrivals, each
-- with its instant; a wait that nothing ends is one of the outcomes.
pub mod Stream
pub mod Phase
pub mod Measure
pub mod Progress
pub mod Shows
use speedtest_cli_rust.Base.{
  ℕ, zero, suc, ◌+◌, Bool, true, false, Option, none, some, List, [], ◌∷◌, ◌++◌, Result, ok, err,
  ◌==◌, leb, if◌then◌else◌, length,
}
use speedtest_cli_rust.Base.Text.{Text, Bytes, codes}
use speedtest_cli_rust.Output.{Output, Console, write_debug}
use speedtest_cli_rust.Http.Body.{Frame, data_frame, trailers, failure}
use speedtest_cli_rust.Defs.Counter
use speedtest_cli_rust.Defs.Counter.{BytesCounter, add}
use speedtest_cli_rust.Defs.Upload.{UploadBody, poll_frame}
use speedtest_cli_rust.Defs.Upload

pub data StreamEnd : Type 0 where
  completed transfer_failed request_failed : StreamEnd

unfoldable pub replaceable : StreamEnd → Bool
replaceable request_failed = false
replaceable completed = true
replaceable transfer_failed = true

-- The frames of a response body as they come: one at an instant, the end at an instant, or nothing
-- more at all.
pub data Arrivals : Type 0 where
  stalls : Arrivals
  ends : ℕ → Arrivals
  arrives : ℕ → Frame → Arrivals → Arrivals

-- What `send_streaming` comes to: the head of a response or an error at an instant, or nothing.
pub data Answered : Type 0 where
  silent : Answered
  answers : ℕ → Result Text Arrivals → Answered

-- `stream_deadline`, for a stream that starts at `now`.
unfoldable pub stream_deadline : ℕ → ℕ → Option ℕ
stream_deadline timeout now = if timeout == 0 then none else some (now + timeout)

-- What `within` makes of a wait: its value, `None` at the deadline, or no end without a deadline.
pub data Within (A : Type 0) : Type 0 where
  in_time : A → Within A
  cut : Within A
  hangs : Within A

-- `timeout_at` polls the wait before the timer, so that what is ready at the deadline counts.
abbrev pub is_due : Option ℕ → ℕ → Bool
is_due none t = true
is_due (some deadline) t = leb t deadline

abbrev pub never : {A : Type 0} → Option ℕ → Within A
never none = hangs
never (some _) = cut

-- A value with the counter and the console behind it.
pub record Counted (A : Type 0) : Type 0 where
  pub value : A
  pub counter : BytesCounter
  pub console : Console

abbrev newline : Text
newline = b'\n' ∷ []

-- `.unwrap_or(StreamEnd::TransferFailed)`; `none` is a stream that only an abort ends.
abbrev pub or_failed : Within StreamEnd → Option StreamEnd
or_failed (in_time e) = some e
or_failed cut = some transfer_failed
or_failed hangs = none

abbrev pub ended : Counted (Within StreamEnd) → Counted (Option StreamEnd)
ended r = record { value = or_failed r.value; counter = r.counter; console = r.console }

-- The two ways to take data: counted, and thrown away.
abbrev pub counted : ℕ → BytesCounter → BytesCounter
counted n c = add c n

-- hyper polls the body for a number of frames, which the body counts itself.
unfoldable pub frames_taken : ℕ → UploadBody → BytesCounter → BytesCounter
frames_taken zero body c = c
frames_taken (suc n) body c = let p = poll_frame body c in frames_taken n p.body p.counter

abbrev pub uncounted : ℕ → BytesCounter → BytesCounter
uncounted n c = c

module _ (out : Output) where
  abbrev pub read_failed : Text → Console → Console
  read_failed e console =
      write_debug out (codes "Failed when reading HTTP response: " ++ (e ++ newline)) console

  -- The loop over the frames, `counts` being what it does with data.
  module _ (counts : ℕ → BytesCounter → BytesCounter) (deadline : Option ℕ) where
    unfoldable pub read_frames : Arrivals → BytesCounter → Console → Counted (Within StreamEnd)
    read_frames stalls c console = record { value = never deadline; counter = c; console = console }
    read_frames (ends t) c console = record {
      value = if is_due deadline t then in_time completed else cut;
      counter = c;
      console = console;
    }
    read_frames (arrives t (data_frame d) more) c console =
        let rest = read_frames more (counts (length d) c) console in
        if is_due deadline t then rest else record { value = cut; counter = c; console = console }
    read_frames (arrives t trailers more) c console =
        let rest = read_frames more c console in
        if is_due deadline t then rest else record { value = cut; counter = c; console = console }
    read_frames (arrives t (failure e) more) c console =
        if is_due deadline t
        then record {
          value = in_time transfer_failed;
          counter = c;
          console = read_failed e console;
        }
        else record { value = cut; counter = c; console = console }

  -- `send_request`: the response's body, or how the stream ends; `none` is a wait without end.
  abbrev pub sent : Option ℕ → Answered → Console → Option (Result StreamEnd Arrivals) × Console
  sent none silent console = (none, console)
  sent (some _) silent console = (some (err request_failed), console)
  sent deadline (answers t (ok body)) console =
      (some (if is_due deadline t then ok body else err request_failed), console)
  sent deadline (answers t (err e)) console = (
    some (err request_failed),
    if is_due deadline t
        then write_debug out (codes "Failed when making HTTP request: " ++ (e ++ newline)) console
        else console,
  )

  unfoldable pub send_request :
      Option ℕ → Answered → Console → Option (Result StreamEnd Arrivals) × Console
  send_request deadline answered console = sent deadline answered console

  module _ (counts : ℕ → BytesCounter → BytesCounter) (deadline : Option ℕ) where
    -- The match on the response, and the read.
    abbrev pub read_response :
        Option (Result StreamEnd Arrivals) × Console → BytesCounter → Counted (Option StreamEnd)
    read_response (none, console) c = record { value = none; counter = c; console = console }
    read_response (some (err end), console) c = record {
      value = some end;
      counter = c;
      console = console;
    }
    read_response (some (ok body), console) c = ended (read_frames counts deadline body c console)

  -- `now` is the instant at which the stream starts.
  unfoldable pub download_once :
      ℕ → ℕ → Answered → BytesCounter → Console → Counted (Option StreamEnd)
  unfolding send_request
  download_once timeout now answered c console =
      let deadline = stream_deadline timeout now in
      read_response counted deadline (send_request deadline answered console) c

  unfoldable pub upload_once :
      ℕ
      → ℕ
      → ℕ
      → Option Bytes
      → Bytes
      → Answered
      → BytesCounter
      → Console
      → Counted (Option StreamEnd)
  unfolding send_request frames_taken
  upload_once timeout now polls payload random answered c console =
      let deadline = stream_deadline timeout now in
      read_response uncounted deadline (send_request deadline answered console)
        (frames_taken polls (Upload.new payload random) c)
