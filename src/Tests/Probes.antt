-- ===== src/Tests/Probes.antt =====
-- A server that answers, and a list with two servers: src/defs/server.rs and src/speedtest.rs.
use speedtest_cli_rust.Base.{
  ℕ, true, false, none, some, List, [], ◌∷◌, ◌≡◌, refl, if◌then◌else◌, ◌↔◌, Result, ok, err,
}
use speedtest_cli_rust.Base.Text.{Text, Bytes, codes, eq_text, strip_prefix}
use speedtest_cli_rust.Base.Find.{find}
use speedtest_cli_rust.Base.Int.{pos, contains, eq_ℤ}
use speedtest_cli_rust.Output.{default}
use speedtest_cli_rust.Output.Streams.{stdout_text}
use speedtest_cli_rust.Quote.{Chunk}
use speedtest_cli_rust.Defs.Ip.{GetIpResult}
use speedtest_cli_rust.Defs.Telemetry
use speedtest_cli_rust.Defs.Server.{Answer, Done, is_up}
use speedtest_cli_rust.Defs.Server.Probe.{IsHealthy, is_up_lem}
use speedtest_cli_rust.Speedtest.Files.{FileSystem}
use speedtest_cli_rust.Speedtest.Scheme.{nothing, apply_scheme}
use speedtest_cli_rust.Speedtest.Servers.{Server, with_scheme, preprocess_servers}
use speedtest_cli_rust.Speedtest.Load.{ListOptions, load_servers, fetch_servers}
use speedtest_cli_rust.Speedtest.Load.Sources.{IsRead, Selects, load_servers-Selects}
use speedtest_cli_rust.Tests.Web.{Address, web, parse_address}

abbrev pub prague : Server
prague = record {
  id = pos 7;
  name = codes "Prague";
  server = codes "https://a/";
  download_url = [];
  upload_url = [];
  ping_url = codes "empty.php";
  get_ip_url = codes "ip.php";
  sponsor_name = [];
  sponsor_url = [];
}

-- The probe is answered with nothing.
abbrev pub answering : Address → Result Text Answer
answering u = ok (record { status = 200; body = []; facts = none })

abbrev pub no_chunks : Bytes → List Chunk
no_chunks b = []

is_up_lem_example :
    (((is_up web default no_chunks
          (codes "1s")
          (codes "t0")
          prague
          answering
          Telemetry.new
          []).value.up
        ≡ true)
      ↔ IsHealthy web prague answering)
    × (stdout_text
          (is_up web default no_chunks
            (codes "1s")
            (codes "t0")
            prague
            answering
            Telemetry.new
            []).console
        ≡ stdout_text [])
is_up_lem_example =
    is_up_lem web default no_chunks (codes "1s") (codes "t0") prague answering Telemetry.new []

abbrev pub unknown_client : GetIpResult
unknown_client = record {
  processed_string = [];
  info = record {
    ip = [];
    hostname = [];
    city = [];
    region = [];
    country = [];
    location = [];
    organization = [];
    postal = [];
    timezone = [];
    readme = [];
  };
  as_name = [];
}

-- The backend answers with a page that is no document.
abbrev pub page : Address → Result Text (ℕ × Bytes)
page u = ok (200, codes "<p>")

abbrev pub no_document : Bytes → Result Text GetIpResult
no_document b = err (codes "expected value")

abbrev informed : Done GetIpResult
informed = record {
  value = record unknown_client { processed_string = codes "<p>" };
  console = [];
  log = Telemetry.new;
}

-- The first try is not found, and the second has a list.
abbrev second_try : Address → Result Text (ℕ × Bytes)
second_try u = if eq_text u.path (codes "/list") then ok (404, []) else ok (200, 1 ∷ [])

abbrev one_server : Bytes → Result Text (List Server)
one_server b = ok (prague ∷ [])

abbrev no_files : FileSystem
no_files = record {
  open_file = λ path. err (codes "No such file or directory");
  display = λ path. path;
  to_lowercase = λ c. c ∷ [];
}

abbrev asking : ListOptions
asking = record {
  local_json = none;
  server_json = some (codes "https://a/list");
  exclude = [];
  server = pos 7 ∷ [];
  list = false;
  force = nothing;
}

loading :
    (load_servers web second_try one_server no_files (ok []) default asking []).0 ≡ ok (prague ∷ [])
unfolding load_servers fetch_servers parse_address find strip_prefix eq_text preprocess_servers
    with_scheme apply_scheme contains eq_ℤ
loading = refl

load_servers-Selects_example :
    ((raw : Bytes) × IsRead web second_try one_server no_files
        (ok [])
        default
        asking
        asking.local_json
        raw
      × Selects web second_try one_server asking raw (prague ∷ []))
    × (stdout_text (load_servers web second_try one_server no_files (ok []) default asking []).1
        ≡ stdout_text [])
load_servers-Selects_example =
    load_servers-Selects web second_try one_server no_files (ok []) default asking [] loading
