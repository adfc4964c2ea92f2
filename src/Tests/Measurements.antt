-- ===== src/Tests/Measurements.antt =====
-- Downloads, uploads and pings as a whole: src/defs/server.rs and src/ping.rs; and the choice of a
-- server: src/speedtest.rs.
use speedtest_cli_rust.Base.{
  ℕ, ◌*◌, min, true, false, none, some, List, [], ◌∷◌, ◌≡◌, refl, arith, ok, Result, if◌then◌else◌,
  ◌==◌,
}
use speedtest_cli_rust.Base.Text.{Text, codes, strip_prefix}
use speedtest_cli_rust.Output.{default, Console, stream_event}
use speedtest_cli_rust.Output.Streams.{stdout_text}
use speedtest_cli_rust.Ping.{Echo, second}
use speedtest_cli_rust.Defs.Telemetry
use speedtest_cli_rust.Defs.Telemetry.{TelemetryLog, logf}
use speedtest_cli_rust.Defs.Counter.{
  new_meter, set_mebi, start_clock, set_wire, set_upload_size, add, total,
}
use speedtest_cli_rust.Defs.Counter.Ceiling.{frame_taken, taken, wrote}
use speedtest_cli_rust.Defs.Server.{Done, get_url}
use speedtest_cli_rust.Base.Find.{find}
use speedtest_cli_rust.Defs.Counter.Average.{avg_mbps}
use speedtest_cli_rust.Defs.Counter.Ceiling
use speedtest_cli_rust.Defs.Server.Pings.{Timed, Peer, ping_and_jitter, icmp_ping_and_jitter}
use speedtest_cli_rust.Defs.Server.Fallback.{Falls, icmp_ping_and_jitter-Falls}
use speedtest_cli_rust.Defs.Server.Requests.{Measures, ping_and_jitter-Measures}
use speedtest_cli_rust.Defs.Transfer.Phase.{
  ramp_up, phase_loop, shutdown, spawn, phase, deadline, moved, download_counter, upload_counter,
}
use speedtest_cli_rust.Defs.Transfer.Phase.Laws.{moves}
use speedtest_cli_rust.Defs.Transfer.Measure.{
  TransferOptions, ProgressEvent, Course, wakes, ticks, wakes_of, shown, download, upload,
}
use speedtest_cli_rust.Defs.Transfer.Shows.{Reports, download-Reports, upload-Reports}
use speedtest_cli_rust.Speedtest.Fastest.{fastest}
use speedtest_cli_rust.Speedtest.Fastest.Laws.{IsTotalOrder, Chooses, fastest-Chooses}
use speedtest_cli_rust.Tests.Figures.{whole}
use speedtest_cli_rust.Tests.Web.{Address, web, parse_address}
use speedtest_cli_rust.Tests.Probes.{prague}

abbrev pub event_text : ProgressEvent whole → Text
event_text e = codes "{}"

abbrev pub one_stream : TransferOptions
one_stream = record {
  out = record default { quiet = true };
  use_bytes = false;
  use_mebi = false;
  requests = 1;
  chunks = 100;
  upload_size = 1024;
  no_prealloc = false;
  duration = 15 * 1000000000;
}

-- Three bytes come, and the window closes.
abbrev pub short : Course
short = record {
  instants = record { begun = 0; window = 0; over = second; told = second };
  meter = new_meter;
  happenings = wakes (moved (frame_taken 3)) ∷ ticks second ∷ wakes deadline ∷ [];
  ui_is_terminal = false;
  took = codes "1s";
  stamp = codes "t0";
}

-- What the two transfers come to then.
abbrev pub downloaded : TelemetryLog → Console → Done (Result Text (ℕ × ℕ))
downloaded log c = record {
  value = ok (0, 3);
  console = c;
  log = logf log (codes "t0") (codes "Download took 1s");
}

abbrev pub uploaded : TelemetryLog → Console → Done (Result Text (ℕ × ℕ))
uploaded log c = record {
  value = ok (0, 0);
  console = c;
  log = logf log (codes "t0") (codes "Upload took 1s");
}

pub downloading :
    (log : TelemetryLog) (c : Console)
    → download whole event_text one_stream web prague short c log ≡ some (downloaded log c)
unfolding download get_url parse_address find strip_prefix download_counter set_mebi start_clock
    phase ramp_up phase_loop shutdown spawn Ceiling.step add shown stream_event wakes_of total
    avg_mbps
downloading log c = refl

pub uploading :
    (log : TelemetryLog) (c : Console)
    → upload whole event_text one_stream web prague short c log ≡ some (uploaded log c)
unfolding upload get_url parse_address find strip_prefix upload_counter set_mebi start_clock
    set_wire set_upload_size phase ramp_up phase_loop shutdown spawn Ceiling.step add shown
    stream_event wakes_of total avg_mbps
uploading log c = refl

download-Reports_example :
    Reports whole event_text one_stream web
      (codes "download")
      (download_counter false 0)
      (taken (moves (wakes_of short.happenings)))
      prague
      short
      []
      (downloaded Telemetry.new [])
download-Reports_example =
    download-Reports whole event_text one_stream web prague short [] Telemetry.new
      (unfold wakes_of moves taken in omega arith) (unfold wakes_of moves wrote in omega arith)
      (downloading Telemetry.new [])

upload-Reports_example :
    Reports whole event_text one_stream web
      (codes "upload")
      (upload_counter false 1024 new_meter 0)
      (min (taken (moves (wakes_of short.happenings))) (wrote (moves (wakes_of short.happenings))))
      prague
      short
      []
      (uploaded Telemetry.new [])
upload-Reports_example =
    upload-Reports whole event_text one_stream web prague short [] Telemetry.new
      (unfold wakes_of moves taken in omega arith) (unfold wakes_of moves wrote in omega arith)
      (uploading Telemetry.new [])

-- Each request of the ping takes 12 ms.
abbrev pub steady : Address → ℕ → Timed whole
steady u i = record { ms = 12; drained = ok none }

ping_and_jitter-Measures_example :
    Measures whole web default
      (codes "t0")
      (codes "1s")
      prague
      steady
      3
      (ping_and_jitter whole web default
        (codes "t0")
        (codes "1s")
        prague
        steady
        3
        Telemetry.new
        []).value
    × (stdout_text
          (ping_and_jitter whole web default
            (codes "t0")
            (codes "1s")
            prague
            steady
            3
            Telemetry.new
            []).console
        ≡ stdout_text [])
ping_and_jitter-Measures_example =
    ping_and_jitter-Measures whole web default (codes "t0") (codes "1s") prague steady 3
      Telemetry.new []

-- The host resolves, and no echo is answered.
abbrev pub found : Text → Result Text Peer
found host = ok (record { shown = codes "192.0.2.1"; is_ipv4 = true })

abbrev pub no_echo : Peer → Result Text (List ℕ)
no_echo target = ok []

icmp_ping_and_jitter-Falls_example :
    Falls whole web default
      (codes "t0")
      (codes "1s")
      found
      no_echo
      prague
      steady
      10
      Telemetry.new
      false
      (icmp_ping_and_jitter whole web default
        (codes "t0")
        (codes "1s")
        found
        no_echo
        prague
        steady
        10
        Telemetry.new
        false
        []).value
    × (stdout_text
          (icmp_ping_and_jitter whole web default
            (codes "t0")
            (codes "1s")
            found
            no_echo
            prague
            steady
            10
            Telemetry.new
            false
            []).console
        ≡ stdout_text [])
icmp_ping_and_jitter-Falls_example =
    icmp_ping_and_jitter-Falls whole web default (codes "t0") (codes "1s") found no_echo prague
      steady 10 Telemetry.new false []

abbrev quick : ℕ → Echo whole
quick seq = record { took = 5; reply = if seq == 1 then none else some 12 }

whole-IsTotalOrder : IsTotalOrder whole
whole-IsTotalOrder = record {
  reflexive = λ a. ground arith;
  transitive = λ a b c p q. ground arith;
  total = λ a b p. ground arith;
}

fastest-Chooses_example :
    Chooses whole ((0, 30) ∷ (1, 12) ∷ []) (fastest whole ((0, 30) ∷ (1, 12) ∷ []))
fastest-Chooses_example = fastest-Chooses whole whole-IsTotalOrder ((0, 30) ∷ (1, 12) ∷ [])
