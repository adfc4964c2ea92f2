-- ===== src/Tests/Sessions.antt =====
-- A whole process of src/main.rs with `--json`, on a list in a file.
use speedtest_cli_rust.Base.{
  ℕ, Bool, true, false, none, some, List, [], ◌∷◌, ◌++◌, Result, ok, err, refl, ◌≡◌, ◌≢◌, All,
}
use speedtest_cli_rust.Base.Text.{Text, codes}
use speedtest_cli_rust.Output.Streams.{stdout_text}
use speedtest_cli_rust.Http.Family.{
  v4, SocketAddr, any_family, only_v4, accepts, BindOptions, linux, Destination, call, Socket,
  resolve,
}
use speedtest_cli_rust.Http.Family.Laws.{Binds, call-Binds}
use speedtest_cli_rust.Http.Tls.{TlsSettings, TlsLibrary, client_config}
use speedtest_cli_rust.Http.Tls.Trust.{IsSound, client_config-IsSound}
use speedtest_cli_rust.Defs.Telemetry.{default}
use speedtest_cli_rust.Speedtest.Files.{FileSystem}
use speedtest_cli_rust.Speedtest.Fastest.{Pinger}
use speedtest_cli_rust.Speedtest.Fastest.Pings.{IsQuiet}
use speedtest_cli_rust.Speedtest.Run.{Args, World}
use speedtest_cli_rust.Speedtest.Run.Settings.{Build}
use speedtest_cli_rust.Speedtest.Run.Flow.{run, list_servers}
use speedtest_cli_rust.Speedtest.Run.Listing.{lines_text, Entries, list_servers-Entries}
use speedtest_cli_rust.Speedtest.Run.Laws.{Reaches, run-Reaches}
use speedtest_cli_rust.Main.{Shown}
use speedtest_cli_rust.Tests.Figures.{whole}
use speedtest_cli_rust.Tests.Web.{web}
use speedtest_cli_rust.Tests.Probes.{prague}
use speedtest_cli_rust.Tests.Measurements.{one_stream}
use speedtest_cli_rust.Tests.Runs.{silent_backend, json_options, writers}

abbrev a_file : FileSystem
a_file = record {
  open_file = λ path. ok (ok []);
  display = λ path. path;
  to_lowercase = λ c. c ∷ [];
}

abbrev quick : Pinger whole
quick = record {
  is_up = λ log c. record { value = record { up = true; tls = none }; console = c; log = log };
  ping_and_jitter = λ log c. record { value = ok (12, 0); console = c; log = log };
}

quick-IsQuiet : IsQuiet whole quick
quick-IsQuiet = record { probes = λ log c. refl; pings = λ log c. refl }

abbrev home : SocketAddr
home = record { ip = v4 (192 ∷ 0 ∷ 2 ∷ 1 ∷ []); port = 443 }

abbrev lookup : Text → ℕ → Result Text (List SocketAddr)
lookup host port = ok (home ∷ [])

abbrev no_tls : TlsLibrary
no_tls = record {
  read = λ path. ok [];
  pem_certs = λ pem. ok ((1 ∷ []) ∷ []);
  native_certs = (1 ∷ []) ∷ (2 ∷ []) ∷ [];
  add = λ cert. ok true;
  protocol_versions = ok true;
}

abbrev named_bundle : TlsSettings
named_bundle = record { ca_cert = some (codes "ca.pem"); skip_verify = false; http2 = false }

client_config-IsSound_example :
    IsSound no_tls named_bundle [] (client_config no_tls named_bundle [])
client_config-IsSound_example = client_config-IsSound no_tls named_bundle []

abbrev network : World whole web Bool
network = record {
  platform = linux;
  fs = a_file;
  stdin = ok [];
  servers_from_slice = λ body. ok (prague ∷ []);
  telemetry_from_slice = λ body. ok default;
  show_status = λ n. [];
  debug = λ t. t;
  csv_header = λ delimiter. ok [];
  parse_ip = λ t. none;
  show_ip = λ ip. [];
  lookup_host = lookup;
  user_agent = codes "librespeed-cli-rust";
  tls = no_tls;
  build_client = λ bind config http2 timeout concurrent agent. ok true;
  get_bytes = λ client url. err (codes "offline");
  pinger = λ ctx idx. quick;
  completed = λ servers. 0 ∷ [];
  backend = λ ctx. silent_backend;
  writers = writers;
}

abbrev on_a_file : Args
on_a_file = record {
  tests = json_options;
  telemetry = record {
    share = false;
    telemetry_json = none;
    telemetry_level = none;
    telemetry_server = none;
    telemetry_path = none;
    telemetry_share = none;
  };
  version = false;
  debug = false;
  source = none;
  interface = none;
  fwmark = 0;
  ipv4 = true;
  ipv6 = false;
  no_icmp = false;
  ca_cert = none;
  skip_cert_verify = false;
  http2 = false;
  timeout = 15;
  secure = false;
  insecure = false;
  local_json = some (codes "servers.json");
  server_json = none;
  exclude = [];
  server = [];
  list = false;
}

abbrev release : Build
release = record {
  version = codes "v1.0.0";
  date = codes "2026-01-01";
  revision = codes "unknown";
  repository = codes "https://github.com/librespeed/speedtest-cli-rust";
}

abbrev no_usage : Shown
no_usage = record { rendered = λ e. []; use_stderr = λ e. true }

run-Reaches_example :
    Reaches whole web Bool network on_a_file [] (run whole web Bool network release on_a_file [])
run-Reaches_example =
    run-Reaches whole web Bool network on_a_file (λ ctx idx. quick-IsQuiet) release [] refl refl
      refl

abbrev from_home : BindOptions
from_home = record {
  source = some (v4 (192 ∷ 0 ∷ 2 ∷ 7 ∷ []));
  interface = none;
  fwmark = 0;
  family = only_v4;
}

abbrev to_home : Destination lookup
to_home = record { host = some (codes "home.example"); port = none; scheme = some (codes "https") }

abbrev sockets : Socket ℕ
sockets = record {
  opened = λ is_v4. ok true;
  options_set = λ opts addr. ok true;
  bind = λ addr. ok true;
  connect = λ source addr. ok 7;
}

only_v4_lem : only_v4 ≢ any_family
only_v4_lem h = cc

call-Binds_example :
    (false ≡ false)
    × All
        (λ a. (accepts only_v4 a.ip ≡ true) × Binds sockets from_home (v4 (192 ∷ 0 ∷ 2 ∷ 7 ∷ [])) a)
        (home ∷ [])
call-Binds_example =
    call-Binds sockets lookup from_home to_home (v4 (192 ∷ 0 ∷ 2 ∷ 7 ∷ [])) {addrs = home ∷ []}
      only_v4_lem refl (unfold accepts in refl) (unfold call resolve accepts in refl)

list_servers-Entries_example :
    (ls : List Text) × Entries (prague ∷ []) ls
    × (stdout_text (list_servers web one_stream.out (prague ∷ []) [])
        ≡ stdout_text [] ++ lines_text ls)
list_servers-Entries_example = list_servers-Entries web one_stream.out (prague ∷ []) []
