-- ===== src/Helper/Telemetry.antt =====
-- `send_telemetry` of src/helper.rs.
pub mod Laws
use speedtest_cli_rust.Base.{
  ℕ, Bool, true, false, List, [], ◌∷◌, ◌++◌, ◌>>=◌, Result, ok, err, if◌then◌else◌, not, within,
  take, ◌==◌, length,
}
use speedtest_cli_rust.Base.Text.{Text, codes}
use speedtest_cli_rust.Base.Split.{split}
use speedtest_cli_rust.Output.Sanitize.{sanitize}
use speedtest_cli_rust.Url.{UrlCrate}
use speedtest_cli_rust.Defs.Telemetry.{TelemetryServer, get_path, get_share}
use speedtest_cli_rust.Helper.Multipart.{multipart_form}

-- What there is to send: the two documents that serde_json writes, or its errors, the figures
-- with two decimals, and the log.
pub record Measured : Type 0 where
  pub isp_json : Result Text Text
  pub extra_json : Result Text Text
  pub download : Text
  pub upload : Text
  pub ping : Text
  pub jitter : Text
  pub logs : Text

pub data SendError : Type 0 where
  not_written : Text → SendError
  invalid_server : Text → SendError
  not_posted : Text → SendError
  http_status : ℕ → SendError
  invalid_response : Text → SendError

unfoldable pub form_fields : Measured → Text → Text → List (Text × Text)
form_fields m isp_json extra_json =
    (codes "ispinfo", isp_json)
    ∷ (codes "dl", m.download)
    ∷ (codes "ul", m.upload)
    ∷ (codes "ping", m.ping)
    ∷ (codes "jitter", m.jitter)
    ∷ (codes "log", m.logs)
    ∷ (codes "extra", extra_json)
    ∷ []

abbrev pub written : Result Text Text → Result SendError Text
written (ok t) = ok t
written (err e) = err (not_written e)

-- The part of the response that is shown.
abbrev pub shown : Text → Text
shown response = take 200 (sanitize response)

module _ (crate : UrlCrate) where
  open crate use {Url, append_pair, as_str}

  -- `client.post_bytes(&url, &content_type, body)`, whose response is read as UTF-8.
  abbrev pub Post : Type 0
  Post = Url → Text → Text → Result Text (ℕ × Text)

  abbrev pub address : Result Text Url → Result SendError Url
  address (ok u) = ok u
  address (err e) = err (invalid_server e)

  abbrev pub link : Text → Result SendError Url → Result SendError Text
  link id (err e) = err e
  link id (ok u) = ok (as_str (append_pair u (codes "id") id))

  -- `parts.len() != 2`
  abbrev pub share_link : TelemetryServer → Text → List Text → Result SendError Text
  share_link t response (answer ∷ id ∷ []) = link id (address (get_share crate t))
  share_link t response _ = err (invalid_response (shown response))

  abbrev pub responded : TelemetryServer → Result Text (ℕ × Text) → Result SendError Text
  responded t (err e) = err (not_posted e)
  responded t (ok (status, response)) =
      if not (within 200 299 status)
      then err (http_status status)
      else share_link t response (split b' ' response)

  -- `boundary` is what the random generator gives.
  unfoldable pub send_telemetry : Post → Text → TelemetryServer → Measured → Result SendError Text
  send_telemetry post boundary t m = written m.isp_json >>= (λ isp_json.
      written m.extra_json >>= (λ extra_json. address (get_path crate t) >>= (λ url.
        let (content_type, body) = multipart_form boundary (form_fields m isp_json extra_json) in
        responded t (post url content_type body))))
