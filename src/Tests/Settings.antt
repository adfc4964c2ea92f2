-- ===== src/Tests/Settings.antt =====
-- Telemetry settings, server lists and the link of a result: src/speedtest.rs, src/helper.rs and
-- src/defs/telemetry.rs.
use speedtest_cli_rust.Base.{
  true, none, some, List, [], ◌∷◌, ◌≡◌, refl, arith, Result, ok, err, length, suc,
}
use speedtest_cli_rust.Base.Text.{Text, Bytes, codes, eq_text, starts_with, strip_prefix}
use speedtest_cli_rust.Base.Find.{find}
use speedtest_cli_rust.Base.Split.{split, join}
use speedtest_cli_rust.Base.Int.{pos}
use speedtest_cli_rust.Util.Path.{path_join, path_clean, path_step, path_up, path_render}
use speedtest_cli_rust.Defs.Telemetry.{TelemetryServer, get_level, get_path, get_share}
use speedtest_cli_rust.Defs.Telemetry.Log.{Call, plain, verbose}
use speedtest_cli_rust.Speedtest.Files.{FileSystem}
use speedtest_cli_rust.Speedtest.Telemetry.{
  Options, resolve_telemetry, any_telemetry_option, load, apply_level, apply_default,
}
use speedtest_cli_rust.Speedtest.Telemetry.Laws.{
  Asked, Settles, resolve_telemetry-Asked, resolve_telemetry-Settles,
}
use speedtest_cli_rust.Speedtest.Scheme.{nothing}
use speedtest_cli_rust.Speedtest.Servers.{Server, preprocess_servers}
use speedtest_cli_rust.Speedtest.Servers.Selection.{Describes, preprocess_servers_lem}
use speedtest_cli_rust.Helper.Multipart.{multipart_form}
use speedtest_cli_rust.Helper.Multipart.Laws.{read_form, multipart_form_lem}
use speedtest_cli_rust.Helper.Telemetry.{Measured, Post, send_telemetry}
use speedtest_cli_rust.Helper.Telemetry.Laws.{Sends, send_telemetry-Sends}
use speedtest_cli_rust.Tests.Web.{web, parse_address}

-- One file, of three bytes.
abbrev one_file : FileSystem
one_file = record {
  open_file = λ path. ok (ok (1 ∷ 2 ∷ 3 ∷ []));
  display = λ path. path;
  to_lowercase = λ c. c ∷ [];
}

abbrev share_only : Options
share_only = record {
  share = true;
  telemetry_json = none;
  telemetry_level = none;
  telemetry_server = none;
  telemetry_path = none;
  telemetry_share = none;
}

abbrev unreadable : Bytes → Result Text TelemetryServer
unreadable b = err (codes "expected value")

abbrev basic : TelemetryServer
basic = record {
  level = codes "basic";
  server = codes "https://librespeed.org";
  path = codes "/results/telemetry.php";
  share = codes "/results/";
}

resolved : resolve_telemetry one_file unreadable share_only ≡ ok basic
unfolding resolve_telemetry any_telemetry_option load apply_level apply_default
resolved = refl

resolve_telemetry-Asked_example : Asked share_only
resolve_telemetry-Asked_example =
    resolve_telemetry-Asked one_file unreadable share_only resolved
      (unfold get_level eq_text in omega arith)

resolve_telemetry-Settles_example : Settles share_only (load one_file unreadable none) basic
resolve_telemetry-Settles_example =
    resolve_telemetry-Settles one_file unreadable share_only resolved

abbrev calls : List Call
calls =
    record { kind = plain; stamp = codes "t0"; msg = codes "ping" }
    ∷ record { kind = verbose; stamp = codes "t1"; msg = codes "pong" }
    ∷ []

abbrev prague : Server
prague = record {
  id = pos 7;
  name = codes "Prague";
  server = codes "//a/";
  download_url = [];
  upload_url = [];
  ping_url = [];
  get_ip_url = [];
  sponsor_name = [];
  sponsor_url = [];
}

preprocess_servers_lem_example :
    Describes
      (prague ∷ [])
      nothing
      []
      (pos 8 ∷ [])
      true
      (preprocess_servers (prague ∷ []) nothing [] (pos 8 ∷ []) true)
preprocess_servers_lem_example = preprocess_servers_lem (prague ∷ []) nothing [] (pos 8 ∷ []) true

abbrev form : List (Text × Text)
form = (codes "dl", codes "1.00") ∷ (codes "log", codes "-- done") ∷ []

multipart_form_lem_example :
    read_form (suc (length form)) (codes "qx") (multipart_form (codes "qx") form).1 ≡ some form
multipart_form_lem_example =
    multipart_form_lem (codes "qx") form
      (unfold find strip_prefix in ((refl, refl), ((refl, refl), tt)))

abbrev measured : Measured
measured = record {
  isp_json = ok (codes "{}");
  extra_json = ok (codes "{}");
  download = codes "1.00";
  upload = codes "2.00";
  ping = codes "3.00";
  jitter = codes "4.00";
  logs = [];
}

abbrev accepting : Post web
accepting url content_type body = ok (200, codes "id 42")

abbrev result_link : Text
result_link = codes "https://librespeed.org/results/id=42"

linked : send_telemetry web accepting (codes "qx") basic measured ≡ ok result_link
unfolding send_telemetry get_path get_share parse_address find strip_prefix split path_join
    path_clean path_step path_up path_render join starts_with eq_text
linked = refl

send_telemetry-Sends_example : Sends web accepting (codes "qx") basic measured result_link
send_telemetry-Sends_example = send_telemetry-Sends web accepting (codes "qx") basic measured linked
