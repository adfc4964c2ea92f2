-- ===== src/Http/Request.antt =====
-- `HttpClient::request` of src/http/mod.rs: the loop that sends a request and follows redirects.
-- The transport answers as it likes, from all that was sent before; a history is the list of the
-- requests that went out, last first.
pub mod Rounds
pub mod Total
pub mod Safety
pub mod Bodies
pub mod Streams
use speedtest_cli_rust.Base.{
  ℕ, zero, suc, ◌+◌, Bool, true, false, not, ◌&&◌, ◌||◌, List, [], ◌∷◌, Option, none, some, ◌==◌,
  if◌then◌else◌, Result, ok, err, is_empty,
}
use speedtest_cli_rust.Base.Text.{Text, Bytes, codes, eq_text}
use speedtest_cli_rust.Url.{UrlCrate}
use speedtest_cli_rust.Http.Message.{
  Method, get, ReqBody, empty_body, full_body, RequestBody, empty, bytes, stream, Headers,
  content_type, user_agent_header, Response,
}
use speedtest_cli_rust.Http.Origin.{same_origin, origin_of}

-- The tenth redirect is an error.
abbrev pub max_redirects : ℕ
max_redirects = 10

-- The messages of `bail!` and `context`, with what they show.
pub data RequestError : Type 0 where
  unsupported_scheme : Text → RequestError
  invalid_url : Text → RequestError
  transport : RequestError
  invalid_location : RequestError
  invalid_target : RequestError
  https_to_http : RequestError
  too_many_redirects : RequestError
  body_to_other_origin : Method → Text → Text → RequestError

-- A request as it goes out.
pub record Request (U : Type 0) : Type 0 where
  pub method : Method
  pub url : U
  pub headers : Headers
  pub body : ReqBody

-- What the request loop calls: hyper's client, which is given the history and may fail, and the
-- conversions of the `http` crate.
pub record Wire (U : Type 0) : Type 0 where
  pub reply : List (Request U) → Request U → Option Response
  pub is_uri : Text → Bool
  pub header_text : Bytes → Option Text

-- The loop's variables.
pub record Exchange (U : Type 0) : Type 0 where
  pub method : Method
  pub url : U
  pub body : Option RequestBody
  pub sent : ℕ

pub data Turn (U : Type 0) : Type 0 where
  done : Result RequestError Response → Turn U
  again : Exchange U → Turn U

abbrev pub http : Text
http = codes "http"

abbrev pub https : Text
https = codes "https"

-- `matches!(body, RequestBody::Stream(_))` and `matches!(body, Some(RequestBody::Bytes(_)))`
abbrev pub is_stream : RequestBody → Bool
is_stream empty = false
is_stream (bytes _) = false
is_stream (stream _) = true

abbrev pub is_bytes : Option RequestBody → Bool
is_bytes none = false
is_bytes (some empty) = false
is_bytes (some (bytes _)) = true
is_bytes (some (stream _)) = false

abbrev pub is_none {ℓ} : {A : Type ℓ} → Option A → Bool
is_none none = true
is_none (some _) = false

-- The body that goes out, and what stays behind for the next round.
abbrev pub outgoing : Option RequestBody → ReqBody
outgoing none = empty_body
outgoing (some empty) = empty_body
outgoing (some (bytes b)) = full_body b
outgoing (some (stream s)) = s

abbrev pub left_behind : Option RequestBody → Option RequestBody
left_behind none = none
left_behind (some empty) = some empty
left_behind (some (bytes b)) = some (bytes b)
left_behind (some (stream s)) = some (stream empty_body)

-- The caller's headers; with the body dropped, a Content-Type is left out.
unfoldable pub sent_headers : Bool → Headers → Headers
sent_headers dropped [] = []
sent_headers dropped ((name, value) ∷ hs) =
    let rest = sent_headers dropped hs in
    if dropped && eq_text name content_type then rest else (name, value) ∷ rest

-- Whether a redirect keeps the body; `none` for a response that is returned.
unfoldable pub keeps_body : Bool → ℕ → Option Bool
keeps_body replayable status =
    if status == 301 || status == 302 || status == 303
    then some false
    else if (status == 307 || status == 308) && replayable
    then some true
    else none

module _ (crate : UrlCrate) (wire : Wire (UrlCrate.Url crate)) (user_agent : Bytes) where
  open crate use {Url, scheme, as_str, join_url}
  open wire use {reply, is_uri, header_text}

  -- What is decided once the redirect's target is known; `ex` has counted the request.
  unfoldable pub redirect_to : Bool → Exchange Url → Url → Turn Url
  redirect_to keeps ex next =
      if eq_text (scheme ex.url) https && eq_text (scheme next) http
      then done (err https_to_http)
      else if ex.sent == max_redirects
      then done (err too_many_redirects)
      else if not keeps
      then again (record { method = get; url = next; body = none; sent = ex.sent })
      else if is_bytes ex.body && not (same_origin crate ex.url next)
      then done
          (err (body_to_other_origin ex.method (origin_of crate ex.url) (origin_of crate next)))
      else again (record ex { url = next })

  -- `url.join(location).context(…)?`
  unfoldable pub join_target : Bool → Exchange Url → Option Url → Turn Url
  join_target keeps ex none = done (err invalid_target)
  join_target keeps ex (some next) = redirect_to keeps ex next

  -- `location.to_str().context(…)?`
  unfoldable pub read_location : Bool → Exchange Url → Option Text → Turn Url
  read_location keeps ex none = done (err invalid_location)
  read_location keeps ex (some location) = join_target keeps ex (join_url ex.url location)

  -- A redirect with no Location, or an empty one, is returned.
  unfoldable pub find_location : Bool → Exchange Url → Response → Option Bytes → Turn Url
  find_location keeps ex resp none = done (ok resp)
  find_location keeps ex resp (some location) =
      if is_empty location then done (ok resp) else read_location keeps ex (header_text location)

  -- A status that is no redirect to follow is returned.
  unfoldable pub match_status : Exchange Url → Response → Option Bool → Turn Url
  match_status ex resp none = done (ok resp)
  match_status ex resp (some keeps) = find_location keeps ex resp resp.location

  unfoldable pub answered : Bool → Exchange Url → Option Response → Turn Url
  answered replayable ex none = done (err transport)
  answered replayable ex (some resp) = match_status ex resp (keeps_body replayable resp.status)

  -- The request of a round.
  unfoldable pub request_of : Headers → Exchange Url → Request Url
  request_of headers ex = record {
    method = ex.method;
    url = ex.url;
    headers = (user_agent_header, user_agent) ∷ sent_headers (is_none ex.body) headers;
    body = outgoing ex.body;
  }

  -- One pass of the loop, with the history after it.
  unfoldable pub round :
      Bool → Headers → List (Request Url) → Exchange Url → Turn Url × List (Request Url)
  round replayable headers history ex =
      if not (eq_text (scheme ex.url) http || eq_text (scheme ex.url) https)
      then (done (err (unsupported_scheme (scheme ex.url))), history)
      else if not (is_uri (as_str ex.url))
      then (done (err (invalid_url (as_str ex.url))), history)
      else let req = request_of headers ex in
        let ex' = record ex { body = left_behind ex.body; sent = ex.sent + 1 } in
        (answered replayable ex' (reply history req), req ∷ history)

  -- The loop ends with a result, or goes on with the next exchange.
  abbrev pub proceed :
      Turn Url
      → List (Request Url)
      → (Exchange Url → Option (Result RequestError Response × List (Request Url)))
      → Option (Result RequestError Response × List (Request Url))
  proceed (done r) history next = some (r, history)
  proceed (again ex) history next = next ex

  -- The loop, with fuel; `none` would say that the fuel ran out.
  unfoldable pub request_loop :
      ℕ
      → Bool
      → Headers
      → List (Request Url)
      → Exchange Url
      → Option (Result RequestError Response × List (Request Url))
  request_loop zero replayable headers history ex = none
  request_loop (suc fuel) replayable headers history ex =
      let (turn, history') = round replayable headers history ex in
      proceed turn history' (λ ex'. request_loop fuel replayable headers history' ex')

  unfoldable pub initial : Method → Url → RequestBody → Exchange Url
  initial method url body = record { method = method; url = url; body = some body; sent = 0 }

  -- `HttpClient::request`, with the requests that went out.
  unfoldable pub request :
      Method
      → Url
      → Headers
      → RequestBody
      → Option (Result RequestError Response × List (Request Url))
  unfolding request_loop
  request method url headers body =
      request_loop max_redirects (not (is_stream body)) headers [] (initial method url body)
