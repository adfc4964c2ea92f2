-- ===== src/Tests/Runs.antt =====
-- A run of src/helper.rs with `--json`.
use speedtest_cli_rust.Base.{true, false, none, [], ◌∷◌, ◌≡◌, refl, sym, arith, ok, err, Result}
use speedtest_cli_rust.Base.Text.{Text, codes}
use speedtest_cli_rust.Output.{Output, Console}
use speedtest_cli_rust.Defs.Telemetry.{TelemetryLog}
use speedtest_cli_rust.Output.Streams.{stdout_text}
use speedtest_cli_rust.Defs.Ip.{GetIpResult}
use speedtest_cli_rust.Defs.Server.{Done}
use speedtest_cli_rust.Defs.Counter.Ceiling.{taken, wrote}
use speedtest_cli_rust.Defs.Transfer.Phase.Laws.{moves}
use speedtest_cli_rust.Defs.Transfer.Measure.{wakes_of}
use speedtest_cli_rust.Speedtest.Servers.{Server}
use speedtest_cli_rust.Helper.Run.{RunOptions, TestContext, Backend}
use speedtest_cli_rust.Helper.Run.Loop.{Writers, do_speed_test}
use speedtest_cli_rust.Helper.Run.Discreet.{IsDiscreet}
use speedtest_cli_rust.Helper.Run.Laws.{Prints, do_speed_test-Prints}
use speedtest_cli_rust.Helper.Run.Measuring.{World, measuring, measuring-IsDiscreet}
use speedtest_cli_rust.Tests.Figures.{whole}
use speedtest_cli_rust.Tests.Web.{web}
use speedtest_cli_rust.Tests.Probes.{
  prague, unknown_client, no_chunks, answering, page, no_document,
}
use speedtest_cli_rust.Tests.Measurements.{
  event_text, one_stream, short, downloaded, downloading, uploaded, uploading, steady, found,
  no_echo,
}

abbrev world : World whole web
world = record {
  utf8_chunks = no_chunks;
  lossy = λ b. b;
  from_slice = no_document;
  no_info = unknown_client;
  get_prefix = answering;
  get_bytes = page;
  get_drained = steady;
  resolve_host = found;
  icmp_rtts = no_echo;
  to_string = event_text;
  down = short;
  up = short;
  send_telemetry = λ info dl ul ping jitter logs extra. err (codes "off");
  ip_of = λ info. [];
  elapsed = codes "1s";
  stamp = codes "t0";
  timestamp = codes "2026-01-01T00:00:00Z";
  took = λ name. codes "1s";
  ui_is_terminal = false;
  frames_drawn = 0;
}

measuring-IsDiscreet_example :
    IsDiscreet whole one_stream.out
      (measuring whole web world one_stream (codes "km") false prague downloaded uploaded)
measuring-IsDiscreet_example =
    measuring-IsDiscreet whole web world one_stream (codes "km") false prague downloaded uploaded
      downloading uploading (unfold wakes_of moves taken in omega arith)
      (unfold wakes_of moves wrote in omega arith) (unfold wakes_of moves taken in omega arith)
      (unfold wakes_of moves wrote in omega arith)

-- A server where nothing is said, whatever its address.
abbrev pub silent_backend : Server → Backend whole
silent_backend s = record {
  is_up = λ log c. record { value = record { up = true; tls = none }; console = c; log = log };
  get_ip_info = λ log c. ok (record { value = unknown_client; console = c; log = log });
  ping_and_jitter = λ log c. record { value = ok (12, 0); console = c; log = log };
  download = downloaded;
  upload = uploaded;
  send_telemetry = λ info dl ul ping jitter logs extra. err (codes "off");
  ui_is_terminal = false;
  frames_drawn = 0;
  took = λ name. codes "1s";
  timestamp = codes "2026-01-01T00:00:00Z";
  ip_of = λ info. [];
}

pub silent-IsDiscreet : (out : Output) (s : Server) → IsDiscreet whole out (silent_backend s)
silent-IsDiscreet out s = record {
  probes = λ log c. refl;
  informs = λ log c {d} e. kept log c d e;
  pings = λ log c. refl;
  downloads = λ still log c. refl;
  uploads = λ still log c. refl;
}
  where
    kept :
        (log : TelemetryLog) (c : Console) (d : Done GetIpResult)
        → ◌≡◌ {A = Result Text (Done GetIpResult)}
            (ok (record { value = unknown_client; console = c; log = log }))
            (ok d)
        → stdout_text d.console ≡ stdout_text c
    kept log c d e =
        let same : record { value = unknown_client; console = c; log = log } ≡ d = cc in
        rw (sym same) refl

abbrev pub json_options : RunOptions
json_options = record {
  cli = record {
    simple = false;
    json = true;
    csv = false;
    json_stream = false;
    csv_delimiter = codes ",";
    csv_header = false;
  };
  bytes = false;
  mebibytes = false;
  no_download = false;
  no_upload = false;
  concurrent = 3;
  chunks = 100;
  upload_size = 1024;
  duration = 15;
  telemetry_extra = none;
}

abbrev here : TestContext
here = record { out = one_stream.out; level = 0; no_icmp = false }

abbrev pub writers : Writers whole
writers = record { csv_rows = λ rows delimiter. ok []; to_go_json = λ reports. ok (codes "[]") }

do_speed_test-Prints_example :
    Prints whole json_options here refl refl web silent_backend
      (silent-IsDiscreet here.out)
      (λ t. t)
      writers
      (prague ∷ [])
      []
      (do_speed_test whole json_options here web silent_backend (λ t. t) writers (prague ∷ []) [])
do_speed_test-Prints_example =
    do_speed_test-Prints whole json_options here refl refl web silent_backend
      (silent-IsDiscreet here.out) (λ t. t) writers (prague ∷ []) []
