-- ===== src/Speedtest/Servers.antt =====
-- `preprocess_servers` of src/speedtest.rs, on the `Server` of src/defs/server.rs.
pub mod Selection
use speedtest_cli_rust.Base.{
  Bool, true, false, Result, ok, err, List, [], ◌∷◌, map, not, ◌&&◌, if◌then◌else◌, keep, is_empty,
}
use speedtest_cli_rust.Base.Text.{Text, codes}
use speedtest_cli_rust.Base.Int.{ℤ, negsuc, contains, show}
use speedtest_cli_rust.Base.Split.{join}
use speedtest_cli_rust.Speedtest.Scheme.{ForceScheme, apply_scheme}

-- `struct Server`; `id` is an `i64`.
pub record Server : Type 0 where
  pub id : ℤ
  pub name : Text
  pub server : Text
  pub download_url : Text
  pub upload_url : Text
  pub ping_url : Text
  pub get_ip_url : Text
  pub sponsor_name : Text
  pub sponsor_url : Text

-- The two errors of `preprocess_servers`, the second with the text between its brackets.
pub data SelectionError : Type 0 where
  either_exclude_or_server : SelectionError
  not_found : Text → SelectionError

unfoldable pub with_scheme : ForceScheme → Server → Server
with_scheme force s = record s { server = apply_scheme s.server force }

-- `ids.join(" ")`
unfoldable pub listed : List ℤ → Text
listed ids = join 32 (map show ids)

-- `if ret.is_empty() { bail!(…) } return Ok(ret)`
abbrev pub or_not_found : List ℤ → List Server → Result SelectionError (List Server)
or_not_found specific ret = if is_empty ret then err (not_found (listed specific)) else ok ret

unfoldable pub preprocess_servers :
    List Server → ForceScheme → List ℤ → List ℤ → Bool → Result SelectionError (List Server)
preprocess_servers servers force excludes specific filter =
    let servers' = map (with_scheme force) servers in
    if not (is_empty excludes) && not (is_empty specific)
    then err either_exclude_or_server
    else if not filter
    then ok servers'
    else if not (is_empty excludes)
    then ok (keep (λ s. not (contains excludes s.id)) servers')
    else if not (is_empty specific) && not (contains specific (negsuc 0))
    then or_not_found specific (keep (λ s. contains specific s.id) servers')
    else ok servers'
