-- ===== src/Defs/Ip.antt =====
-- `IPInfoResponse` and `GetIPResult` of src/defs/mod.rs.
use speedtest_cli_rust.Base.{
  Bool, true, false, Option, none, some, [], ◌∷◌, if◌then◌else◌, is_empty,
}
use speedtest_cli_rust.Base.Text.{Text}

-- `struct IPInfoResponse`
pub record IpInfoResponse : Type 0 where
  pub ip : Text
  pub hostname : Text
  pub city : Text
  pub region : Text
  pub country : Text
  pub location : Text
  pub organization : Text
  pub postal : Text
  pub timezone : Text
  pub readme : Text

-- `GetIPResult`: the document as it came in, with what `serde_json` reads in `rawIspInfo`, which
-- is the default response for anything that is no object.
pub record GetIpResult : Type 0 where
  pub processed_string : Text
  pub info : IpInfoResponse
  pub as_name : Text

unfoldable pub ip_info : GetIpResult → IpInfoResponse
ip_info r =
    if is_empty r.info.organization then record (r.info) { organization = r.as_name } else r.info

-- `split_whitespace().next()` and `parse::<IpAddr>().is_ok()`
module _ (first_token : Text → Option Text) (is_address : Text → Bool) where
  abbrev address_or_empty : Option Text → Text
  address_or_empty none = []
  address_or_empty (some tok) = if is_address tok then tok else []

  unfoldable pub ip : GetIpResult → Text
  ip r =
      let from_raw = (ip_info r).ip in
      if not_empty from_raw then from_raw else address_or_empty (first_token r.processed_string)
    where
      not_empty : Text → Bool
      not_empty [] = false
      not_empty (_ ∷ _) = true
