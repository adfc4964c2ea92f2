-- ===== src/Defs/Transfer/Measure.antt =====
-- `Server::download` and `Server::upload` of src/defs/server.rs as a whole, with what they show: the
-- spinner, the progress events of `start_progress_ticker` and the rate of `format_rate`.
use speedtest_cli_rust.Base.{
  ℕ, ◌-◌, Bool, Option, none, some, List, [], ◌∷◌, ◌++◌, Result, ok, err, if◌then◌else◌,
}
use speedtest_cli_rust.Base.Text.{Text, codes}
use speedtest_cli_rust.Base.Decimal.{decimal}
use speedtest_cli_rust.Base.Float.{Float}
use speedtest_cli_rust.Url.{UrlCrate}
use speedtest_cli_rust.Url.Join.{url_join_path}
use speedtest_cli_rust.Output.{Output, Console, write_ui, write_debug, stream_event}
use speedtest_cli_rust.Spinner
use speedtest_cli_rust.Spinner.{Spinner, draw}
use speedtest_cli_rust.Defs.Telemetry.{TelemetryLog, logf}
use speedtest_cli_rust.Defs.Server.{Done, get_url}
use speedtest_cli_rust.Defs.Counter.{WriteMeter, BytesCounter, total}
use speedtest_cli_rust.Defs.Counter.Average.{avg_mbps, avg_humanize}
use speedtest_cli_rust.Defs.Counter.Ceiling
use speedtest_cli_rust.Defs.Counter.Ceiling.{step}
use speedtest_cli_rust.Defs.Transfer.Phase.{
  Streams, Wake, deadline, joined, moved, on_join, phase, ramp_up, no_streams, download_counter,
  upload_counter,
}
use speedtest_cli_rust.Speedtest.Servers.{Server}

-- `struct TransferOptions`; the duration is in nanoseconds.
pub record TransferOptions : Type 0 where
  pub out : Output
  pub use_bytes : Bool
  pub use_mebi : Bool
  pub requests : ℕ
  pub chunks : ℕ
  pub upload_size : ℕ
  pub no_prealloc : Bool
  pub duration : ℕ

-- What happens in a phase: a wake of its loop, a second of the ticker, a frame of the spinner, or a
-- stream that says something under `--debug`.
pub data Happening : Type 0 where
  wakes : Wake → Happening
  ticks : ℕ → Happening
  draws : ℕ → Happening
  says : Text → Happening

unfoldable pub wakes_of : List Happening → List Wake
wakes_of [] = []
wakes_of (wakes w ∷ hs) = w ∷ wakes_of hs
wakes_of (ticks _ ∷ hs) = wakes_of hs
wakes_of (draws _ ∷ hs) = wakes_of hs
wakes_of (says _ ∷ hs) = wakes_of hs

-- The streams behind a wake, for what is shown of them.
abbrev pub behind : Wake → Streams → Streams
behind deadline s = s
behind (joined res) s = on_join res s
behind (moved e) s = record s { bytes = step s.bytes e }

module _ (float : Float) where
  open float use {F, of_nat, mul, div, round, min, as_secs, to_nat, fixed}

  -- `ProgressEvent` of src/report.rs, whose `event` is "progress".
  pub record ProgressEvent : Type 0 where
    pub phase_name : Text
    pub seconds : F
    pub mbps : F
    pub progress : ℕ

  -- The event of an instant, with what the counter reads then.
  unfoldable pub progress_event : Text → ℕ → ℕ → ℕ → Ceiling.Phase → ProgressEvent
  progress_event name duration started now b =
      let elapsed = as_secs (now - started) in
      record {
        phase_name = name;
        seconds = div (round (mul elapsed (of_nat 10))) (of_nat 10);
        mbps = div (round (mul (avg_mbps float now b.meter b.counter) (of_nat 100))) (of_nat 100);
        progress = to_nat (min (mul (div elapsed (as_secs duration)) (of_nat 100)) (of_nat 100));
      }

  -- `format_rate`
  unfoldable pub format_rate : Text → Bool → ℕ → Ceiling.Phase → Text
  format_rate label use_bytes now b =
      if use_bytes
      then label ++ (codes ":\t" ++ (avg_humanize float now b.meter b.counter ++ codes "\n"))
      else label
        ++ (codes ":\t" ++ (fixed 2 (avg_mbps float now b.meter b.counter) ++ codes " Mbps\n"))

  -- What the spinner shows behind its frame.
  unfoldable pub suffix : Bool → ℕ → Ceiling.Phase → Text
  suffix use_bytes now b =
      if use_bytes
      then codes "  " ++ avg_humanize float now b.meter b.counter
      else codes "  " ++ (fixed 2 (avg_mbps float now b.meter b.counter) ++ codes " Mbps")

  -- serde_json writes an event.
  module _ (to_string : ProgressEvent → Text) (opts : TransferOptions) (name : Text)
      (started : ℕ) where
    abbrev pub tick : ℕ → Streams → Console → Console
    tick now s console =
        stream_event opts.out (to_string (progress_event name opts.duration started now s.bytes))
          console

    abbrev pub drawn : Option Spinner → ℕ → Streams → Console → Option Spinner × Console
    drawn none now s console = (none, console)
    drawn (some spinner) now s console =
        let (spinner', console') = draw spinner (suffix opts.use_bytes now s.bytes) console in
        (some spinner', console')

    -- What a phase has shown by its end.
    unfoldable pub shown :
        List Happening → Streams → Option Spinner → Console → Option Spinner × Console
    shown [] s spinner console = (spinner, console)
    shown (wakes w ∷ hs) s spinner console = shown hs (behind w s) spinner console
    shown (ticks now ∷ hs) s spinner console = shown hs s spinner (tick now s console)
    shown (draws now ∷ hs) s spinner console =
        let (spinner', console') = drawn spinner now s console in shown hs s spinner' console'
    shown (says t ∷ hs) s spinner console = shown hs s spinner (write_debug opts.out t console)

-- `start_transfer_spinner`
abbrev pub transfer_spinner : Bool → Output → Text → Option Spinner
transfer_spinner ui_is_terminal out prefix =
    if out.quiet then none else some (Spinner.start ui_is_terminal out prefix)

abbrev pub stop_spinner : Option Spinner → Text → Console → Console
stop_spinner none final console = console
stop_spinner (some spinner) final console = Spinner.stop spinner final console

-- The instants that a phase reads: when its counter starts, when the window starts, when the rate is
-- taken, and when it is told.
pub record Instants : Type 0 where
  pub begun : ℕ
  pub window : ℕ
  pub over : ℕ
  pub told : ℕ

-- The world of a phase: the clock, the meter at its start, what happens in it, whether stderr is a
-- terminal, how long it took, and the time of its log line.
pub record Course : Type 0 where
  pub instants : Instants
  pub meter : WriteMeter
  pub happenings : List Happening
  pub ui_is_terminal : Bool
  pub took : Text
  pub stamp : Text

module _ (float : Float) (to_string : ProgressEvent float → Text) (opts : TransferOptions) where
  open float use {F}

  -- What stands behind the loop: the rate and the total, the line of the spinner, and the log.
  abbrev pub finished :
      Text
      → Text
      → Course
      → Option Spinner × Console
      → TelemetryLog
      → Streams
      → Done (Result Text (F × ℕ))
  finished label took course (spinner, console) log end = record {
    value = ok (
      avg_mbps float course.instants.over end.bytes.meter end.bytes.counter,
      total end.bytes.counter end.bytes.meter,
    );
    console =
        stop_spinner spinner (format_rate float label opts.use_bytes course.instants.told end.bytes)
          console;
    log = logf log course.stamp (took ++ course.took);
  }

  abbrev pub ended :
      Text
      → Text
      → Course
      → Option Spinner × Console
      → TelemetryLog
      → Option Streams
      → Option (Done (Result Text (F × ℕ)))
  ended label took course shown log none = none
  ended label took course shown log (some end) = some (finished label took course shown log end)

  -- A phase with its counter; `none` where what happens is not the course of a whole phase.
  unfoldable pub transfer :
      Text
      → Text
      → Text
      → Text
      → BytesCounter
      → Course
      → Console
      → TelemetryLog
      → Option (Done (Result Text (F × ℕ)))
  transfer name prefix label took c course console log =
      ended label took course
        (shown float to_string opts name course.instants.window course.happenings
          (ramp_up opts.requests (no_streams c course.meter))
          (transfer_spinner course.ui_is_terminal opts.out prefix) console)
        log (phase opts.requests c course.meter (wakes_of course.happenings))

  module _ (crate : UrlCrate) where
    open crate use {Url, append_pair}

    -- The URL that is fetched again and again.
    unfoldable pub download_url : Server → Url → Url
    download_url s u =
        append_pair (url_join_path crate u s.download_url) (codes "ckSize") (decimal opts.chunks)

    -- The run of the download test; `none` where what happens is not the course of a whole phase.
    abbrev pub downloaded :
        Server
        → Course
        → Console
        → TelemetryLog
        → Result Text Url
        → Option (Done (Result Text (F × ℕ)))
    downloaded s course console log (err e) =
        some (record { value = err e; console = console; log = log })
    downloaded s course console log (ok u) =
        transfer (codes "download") (codes "Downloading...  ") (codes "Download rate")
          (codes "Download took ") (download_counter opts.use_mebi course.instants.begun) course
          console log

    -- `Server::download`
    unfoldable pub download :
        Server → Course → Console → TelemetryLog → Option (Done (Result Text (F × ℕ)))
    unfolding transfer
    download s course console log = downloaded s course console log (get_url crate s)

    unfoldable pub upload_url : Server → Url → Url
    upload_url s u = url_join_path crate u s.upload_url

    abbrev pub told_of_payload : Console → Console
    told_of_payload console =
        if opts.no_prealloc
        then write_ui opts.out (codes "Pre-allocation is disabled, performance might be lower!\n")
            console
        else console

    abbrev pub uploaded :
        Server
        → Course
        → Console
        → TelemetryLog
        → Result Text Url
        → Option (Done (Result Text (F × ℕ)))
    uploaded s course console log (err e) =
        some (record { value = err e; console = told_of_payload console; log = log })
    uploaded s course console log (ok u) =
        transfer (codes "upload") (codes "Uploading...  ") (codes "Upload rate")
          (codes "Upload took ")
          (upload_counter opts.use_mebi opts.upload_size course.meter course.instants.begun) course
          (told_of_payload console) log

    -- `Server::upload`
    unfoldable pub upload :
        Server → Course → Console → TelemetryLog → Option (Done (Result Text (F × ℕ)))
    unfolding transfer
    upload s course console log = uploaded s course console log (get_url crate s)
