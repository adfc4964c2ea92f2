-- ===== src/Http/Client.antt =====
-- The requests that read a whole response, or a prefix, or nothing of it: `get_bytes`,
-- `get_drained`, `get_prefix` and `post_bytes` of src/http/mod.rs, with `with_timeout`. Whether the
-- timeout runs out first is an argument; where it does, no more requests went out than are listed.
-- `send_streaming` is the request of a transfer.
pub mod Streaming
use speedtest_cli_rust.Base.{
  ℕ, ◌*◌, Bool, true, false, Option, none, some, List, [], ◌∷◌, Result, ok, err, ◌==◌,
  if◌then◌else◌,
}
use speedtest_cli_rust.Base.Text.{Text, Bytes, codes}
use speedtest_cli_rust.Url.{UrlCrate}
use speedtest_cli_rust.Http.Message.{
  Method, get, post, RequestBody, empty, bytes, Headers, content_type, Response,
}
use speedtest_cli_rust.Http.Body.{BodyError, collect_limited, drain_body, body_prefix}
use speedtest_cli_rust.Http.Request.{Request, RequestError, Wire, request}

-- `MAX_BUFFERED_RESPONSE` and `MAX_TELEMETRY_RESPONSE`
abbrev pub max_buffered_response : ℕ
max_buffered_response = 8 * 1024 * 1024

abbrev pub max_telemetry_response : ℕ
max_telemetry_response = 64 * 1024

abbrev pub accept_encoding : Text
accept_encoding = codes "accept-encoding"

abbrev pub identity : Bytes
identity = codes "identity"

pub data ClientError : Type 0 where
  not_answered : RequestError → ClientError
  not_read : BodyError → ClientError
  request_timed_out : ℕ → ClientError

-- What a request gives, with the requests that went out; `none` would be a lack of fuel.
abbrev pub Reply : Type 0 → Type 0 → Type 0
Reply U A = Option (Result ClientError A × List (Request U))

module _ {A : Type 0} where
  abbrev pub read : ℕ → Result BodyError A → Result ClientError (ℕ × A)
  read status (ok a) = ok (status, a)
  read status (err e) = err (not_read e)

  -- `?` on the response, and what is made of it.
  abbrev pub responded :
      (Response → Result ClientError A) → Result RequestError Response → Result ClientError A
  responded f (ok resp) = f resp
  responded f (err e) = err (not_answered e)

  -- `with_timeout`; no timeout is set where it is zero.
  abbrev pub with_timeout : ℕ → Bool → Result ClientError A → Result ClientError A
  with_timeout timeout expired r =
      if timeout == 0 then r else if expired then err (request_timed_out timeout) else r

-- `drain_body(…).await?`, whose count is not used.
abbrev pub drained : ℕ → Result BodyError ℕ → Result ClientError ℕ
drained status (ok n) = ok status
drained status (err e) = err (not_read e)

module _ {U A : Type 0} (timeout : ℕ) (expired : Bool) (f : Response → Result ClientError A) where
  -- `self.request(…).await?` and what is made of the response.
  abbrev pub fetched : Option (Result RequestError Response × List (Request U)) → Reply U A
  fetched none = none
  fetched (some (r, h)) = some (with_timeout timeout expired (responded f r), h)

module _ (crate : UrlCrate) (wire : Wire (UrlCrate.Url crate)) (user_agent : Bytes) (timeout : ℕ)
    (expired : Bool) where
  open crate use {Url}

  unfoldable pub get_bytes : Url → Reply Url (ℕ × Bytes)
  get_bytes url =
      fetched timeout expired
        (λ resp. read resp.status (collect_limited resp.body max_buffered_response))
        (request crate wire user_agent get url [] empty)

  -- The status; the connection's facts are left out here and in `get_prefix`.
  unfoldable pub get_drained : Url → Reply Url ℕ
  get_drained url =
      fetched timeout expired (λ resp. drained resp.status (drain_body resp.body))
        (request crate wire user_agent get url [] empty)

  unfoldable pub get_prefix : Url → ℕ → Reply Url (ℕ × Bytes)
  get_prefix url limit =
      fetched timeout expired (λ resp. read resp.status (body_prefix resp.body limit))
        (request crate wire user_agent get url [] empty)

  -- `type_value` is the header's value, which `HeaderValue::from_str` has made.
  unfoldable pub post_bytes : Url → Bytes → Bytes → Reply Url (ℕ × Bytes)
  post_bytes url type_value body =
      fetched timeout expired
        (λ resp. read resp.status (collect_limited resp.body max_telemetry_response))
        (request crate wire user_agent post url ((content_type, type_value) ∷ []) (bytes body))

module _ (crate : UrlCrate) (wire : Wire (UrlCrate.Url crate)) (user_agent : Bytes) where
  open crate use {Url}

  -- `send_streaming`: a transfer measures the wire, and not what a stream decompresses to. Its
  -- response is read by the transfer itself, under no timeout of the client.
  unfoldable pub send_streaming :
      Method → Url → RequestBody → Option (Result RequestError Response × List (Request Url))
  send_streaming method url body =
      request crate wire user_agent method url ((accept_encoding, identity) ∷ []) body
