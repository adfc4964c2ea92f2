-- ===== src/Http/Request/Streams.antt =====
-- A body that can be sent only once, in `HttpClient::request` of src/http/mod.rs.
use speedtest_cli_rust.Base.{false, List, [], ◌∷◌, none, some, Result, ◌≡◌, refl, ◌⊎◌, inl, inr}
use speedtest_cli_rust.Base.Text.{Bytes}
use speedtest_cli_rust.Url.{UrlCrate}
use speedtest_cli_rust.Http.Message.{Method, get, ReqBody, stream, Headers, Response}
use speedtest_cli_rust.Http.Request.{
  RequestError, Request, Wire, Exchange, again, round, request, request_of, initial, max_redirects,
}
use speedtest_cli_rust.Http.Request.Rounds.{Sent, nothing, one, round-Sent, round-again}
use speedtest_cli_rust.Http.Request.Total.{request_loop_inv}
use speedtest_cli_rust.Http.Request.Bodies.{IsBare, request_of-IsBare}

module _ (crate : UrlCrate) (wire : Wire (UrlCrate.Url crate)) (user_agent : Bytes) where
  open crate use {Url}

  -- In a history, last request first: the body may have gone out with the first request, and every
  -- later one is a bare GET.
  abbrev pub SentFirst : ReqBody → List (Request Url) → Type 0
  SentFirst s [] = Unit
  SentFirst s (r ∷ h) = ((h ≡ []) × (r.body ≡ s)) ⊎ (IsBare crate wire user_agent r × SentFirst s h)

  record Spent (s : ReqBody) (h : List (Request Url)) (ex : Exchange Url) : Type 0 where
    sent : SentFirst s h
    next : ((h ≡ []) × (ex.body ≡ some (stream s))) ⊎ ((ex.method ≡ get) × (ex.body ≡ none))

  module _ (s : ReqBody) (headers : Headers) where
    SentFirst-request_of :
        (h : List (Request Url)) (ex : Exchange Url)
        → Spent s h ex
        → SentFirst s (request_of crate wire user_agent headers ex ∷ h)
    SentFirst-request_of h ex p = elim (p.next) [
      | inl (first, body) ↦ inl (first, unfold request_of in rw body refl)
      | inr (m, body) ↦ inr (request_of-IsBare crate wire user_agent headers ex m body, p.sent)
    ]

    round-SentFirst :
        (h : List (Request Url)) (ex : Exchange Url)
        → Spent s h ex
        → SentFirst s (round crate wire user_agent false headers h ex).1
    round-SentFirst h ex p = go (round-Sent crate wire user_agent false headers h ex)
      where
        go : {h' : List (Request Url)} → Sent crate wire user_agent headers h ex h' → SentFirst s h'
        go nothing = p.sent
        go (one web) = SentFirst-request_of h ex p

    -- A redirect is followed only by dropping the body: a 307 or 308 is returned.
    round-Spent :
        (h : List (Request Url)) (ex ex' : Exchange Url)
        → Spent s h ex
        → (round crate wire user_agent false headers h ex).0 ≡ again ex'
        → Spent s (round crate wire user_agent false headers h ex).1 ex'
    round-Spent h ex ex' p e =
        let (web, grown, m) = round-again crate wire user_agent false headers h ex e in
        rw grown (record {
          sent = SentFirst-request_of h ex p;
          next = elim (m.kept_or_dropped) [ inl dropped ↦ inr dropped | inr kept ↦ cc (kept.0) ];
        })

  -- A body that can be sent only once goes out with the first request or not at all, and every
  -- request after the first is a GET with no body and no Content-Type.
  pub request-SentFirst :
      (method : Method) (url : Url) (headers : Headers) (s : ReqBody)
      (r : Result RequestError Response) (h : List (Request Url))
      → request crate wire user_agent method url headers (stream s) ≡ some (r, h)
      → SentFirst s h
  unfolding request initial
  request-SentFirst method url headers s r h e =
      request_loop_inv crate wire user_agent false headers (Spent s) (SentFirst s)
        (round-Spent s headers) (round-SentFirst s headers) max_redirects []
        (initial crate wire user_agent method url (stream s))
        (record { sent = tt; next = inl (refl, refl) }) r h e
