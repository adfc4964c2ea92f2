-- ===== src/Url.antt =====
-- The `url` crate, which the program calls and does not contain, as an interface: its `Url` type
-- and the methods that the source uses. `url_join_path` of src/util.rs stands over it.
pub mod Join
use speedtest_cli_rust.Base.{ℕ, Bool, Option}
use speedtest_cli_rust.Base.Text.{Text}

pub record UrlCrate : Type 1 where
  pub Url : Type 0
  -- `Url::parse`, `Url::join`: no URL stands for an error
  pub parse : Text → Option Url
  -- what the error of `Url::parse` says
  pub parse_error : Text → Text
  pub join_url : Url → Text → Option Url
  pub scheme : Url → Text
  pub host_str : Url → Option Text
  pub port : Url → Option ℕ
  pub port_or_known_default : Url → Option ℕ
  pub path : Url → Text
  -- `set_path`, and `query_pairs_mut().append_pair(name, value)`
  pub set_path : Url → Text → Url
  pub append_pair : Url → Text → Text → Url
  -- `as_str` and `to_string`
  pub as_str : Url → Text
  -- `origin().ascii_serialization()`
  pub origin : Url → Text
