-- ===== src/Defs/Telemetry.antt =====
-- `src/defs/telemetry.rs`: the telemetry levels, the log and the telemetry server's addresses.
pub mod Log
pub mod Share
use speedtest_cli_rust.Base.{
  ℕ, ◌+◌, ◌≤◌, Bool, true, false, Option, none, some, List, [], ◌∷◌, ◌++◌, if◌then◌else◌, within,
  leb, Result, ok, err,
}
use speedtest_cli_rust.Base.Text.{Text, codes, eq_text, starts_with}
use speedtest_cli_rust.Base.Split.{join}
use speedtest_cli_rust.Util.Path.{path_join}
use speedtest_cli_rust.Url.{UrlCrate}
use speedtest_cli_rust.Url.Join.{url_join_path}

-- `LEVEL_DISABLED`, `LEVEL_BASIC`, `LEVEL_FULL`, `LEVEL_DEBUG` and `LEVELS`
abbrev pub level_disabled : Text
level_disabled = codes "disabled"

abbrev pub level_basic : Text
level_basic = codes "basic"

abbrev pub level_full : Text
level_full = codes "full"

abbrev pub level_debug : Text
level_debug = codes "debug"

abbrev pub levels : List Text
levels = level_disabled ∷ level_basic ∷ level_full ∷ level_debug ∷ []

-- `struct TelemetryServer`
pub record TelemetryServer : Type 0 where
  pub level : Text
  pub server : Text
  pub path : Text
  pub share : Text

-- `TelemetryServer::default()`
abbrev pub default : TelemetryServer
default = record { level = []; server = []; path = []; share = [] }

unfoldable pub get_level : TelemetryServer → ℕ
get_level t =
    if eq_text t.level level_basic
    then 1
    else if eq_text t.level level_full
    then 2
    else if eq_text t.level level_debug
    then 3
    else 0

-- `TelemetryLog`: the level is a number from `get_level`; a line has the time of its writing, which
-- the clock gives.
pub record TelemetryLog : Type 0 where
  pub verbosity : ℕ
  pub content : List Text

abbrev pub new : TelemetryLog
new = record { verbosity = 0; content = [] }

abbrev pub set_level : TelemetryLog → ℕ → TelemetryLog
set_level l n = record l { verbosity = n }

abbrev pub push : TelemetryLog → Text → Text → Text → TelemetryLog
push l stamp prefix msg = record l {
  content = l.content ++ (stamp ++ (codes ": " ++ (prefix ++ msg))) ∷ [];
}

unfoldable pub logf : TelemetryLog → Text → Text → TelemetryLog
logf l stamp msg = if leb 2 l.verbosity then push l stamp [] msg else l

unfoldable pub warnf : TelemetryLog → Text → Text → TelemetryLog
warnf l stamp msg = if leb 2 l.verbosity then push l stamp (codes "WARN: ") msg else l

unfoldable pub verbosef : TelemetryLog → Text → Text → TelemetryLog
verbosef l stamp msg = if leb 3 l.verbosity then push l stamp [] msg else l

abbrev pub contents : TelemetryLog → Text
contents l = join 10 l.content

-- The path of the share link.
abbrev pub with_slashes : Text → Text
with_slashes joined =
    if starts_with joined (codes "/") then joined ++ b'/' ∷ [] else b'/' ∷ (joined ++ b'/' ∷ [])

module _ (crate : UrlCrate) where
  open crate use {Url, parse, path, set_path}

  -- The addresses; the error has the text that is no URL.
  abbrev pub parsed : Text → Option Url → Result Text Url
  parsed raw none = err raw
  parsed raw (some base) = ok base

  abbrev pub path_of : TelemetryServer → Result Text Url → Result Text Url
  path_of t (ok base) = ok (url_join_path crate base t.path)
  path_of t (err e) = err e

  unfoldable pub get_path : TelemetryServer → Result Text Url
  get_path t = path_of t (parsed t.server (parse t.server))

  abbrev pub share_of : TelemetryServer → Result Text Url → Result Text Url
  share_of t (ok base) = ok (set_path base (with_slashes (path_join (path base) t.share)))
  share_of t (err e) = err e

  unfoldable pub get_share : TelemetryServer → Result Text Url
  get_share t = share_of t (parsed t.server (parse t.server))
