-- ===== src/Speedtest/Telemetry.antt =====
-- `resolve_telemetry` and `apply_default` of src/speedtest.rs.
pub mod Laws
use speedtest_cli_rust.Base.{
  Bool, true, false, not, ◌&&◌, ◌||◌, Option, none, some, List, [], ◌∷◌, ◌++◌, if◌then◌else◌,
  is_empty, Result, ok, err,
}
use speedtest_cli_rust.Base.Text.{Text, Bytes, codes, eq_text}
use speedtest_cli_rust.Defs.Telemetry.{TelemetryServer, default, levels, level_basic}
use speedtest_cli_rust.Speedtest.Files.{FileSystem, read_file, u64_max}

abbrev pub default_server : Text
default_server = codes "https://librespeed.org"

abbrev pub default_path : Text
default_path = codes "/results/telemetry.php"

abbrev pub default_share : Text
default_share = codes "/results/"

-- The options of `struct Cli` that are read here.
pub record Options : Type 0 where
  pub share : Bool
  pub telemetry_json : Option Text
  pub telemetry_level : Option Text
  pub telemetry_server : Option Text
  pub telemetry_path : Option Text
  pub telemetry_share : Option Text

-- How resolving ends without settings: the errors that are handed on, each with the line that
-- `write_error!` prints first, and the exit by `output::fatal`.
pub data Failure : Type 0 where
  cannot_read cannot_parse : Text → Text → Failure
  fatal : Text → Failure

abbrev pub is_some : Option Text → Bool
is_some none = false
is_some (some _) = true

unfoldable pub any_telemetry_option : Options → Bool
any_telemetry_option o =
    is_some o.telemetry_json
    || (is_some o.telemetry_level
        || (is_some o.telemetry_server || (is_some o.telemetry_path || is_some o.telemetry_share)))

unfoldable pub apply_default : Text → Option Text → Text → Text
apply_default field (some v) value = v
apply_default field none value = if is_empty field then value else field

-- `LEVELS.contains(…)`
abbrev pub among : List Text → Text → Bool
among [] t = false
among (l ∷ ls) t = eq_text l t || among ls t

unfoldable pub apply_level : TelemetryServer → Option Text → Result Failure TelemetryServer
apply_level t (some level) =
    if not (among levels level)
    then err (fatal (codes "Unsupported telemetry level: " ++ level))
    else ok (record t { level = level })
apply_level t none = ok (if is_empty t.level then record t { level = level_basic } else t)

-- The three calls of `apply_default`.
abbrev pub defaulted : Options → TelemetryServer → TelemetryServer
defaulted o t = record t {
  server = apply_default t.server o.telemetry_server default_server;
  path = apply_default t.path o.telemetry_path default_path;
  share = apply_default t.share o.telemetry_share default_share;
}

-- They come after the level is settled.
abbrev pub apply_defaults :
    Options → Result Failure TelemetryServer → Result Failure TelemetryServer
apply_defaults o (err e) = err e
apply_defaults o (ok t) = ok (defaulted o t)

abbrev pub after_load : Options → Result Failure TelemetryServer → Result Failure TelemetryServer
after_load o (err e) = err e
after_load o (ok t) = apply_defaults o (apply_level t o.telemetry_level)

-- `from_slice` is `serde_json::from_slice`.
module _ (fs : FileSystem) (from_slice : Bytes → Result Text TelemetryServer) where
  abbrev pub decoded : Text → Result Text TelemetryServer → Result Failure TelemetryServer
  decoded path (ok t) = ok t
  decoded path (err e) = err (cannot_parse path e)

  abbrev pub from_file : Text → Result Text Bytes → Result Failure TelemetryServer
  from_file path (ok b) = decoded path (from_slice b)
  from_file path (err e) = err (cannot_read path e)

  unfoldable pub load : Option Text → Result Failure TelemetryServer
  load none = ok default
  load (some path) = from_file path (read_file fs path u64_max)

  unfoldable pub resolve_telemetry : Options → Result Failure TelemetryServer
  resolve_telemetry o =
      if not o.share && not (any_telemetry_option o)
      then ok default
      else after_load o (load o.telemetry_json)
