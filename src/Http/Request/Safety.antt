-- ===== src/Http/Request/Safety.antt =====
-- Where the requests of `HttpClient::request` go: src/http/mod.rs.
use speedtest_cli_rust.Base.{Bool, not, List, [], ◌∷◌, some, Result, ◌≡◌, ◌⊎◌, inl, inr, All}
use speedtest_cli_rust.Base.Text.{Bytes}
use speedtest_cli_rust.Url.{UrlCrate}
use speedtest_cli_rust.Http.Message.{Method, RequestBody, Headers, Response}
use speedtest_cli_rust.Http.Request.{
  RequestError, Request, Wire, Exchange, again, is_stream, round, request, request_of, initial,
  max_redirects, http, https,
}
use speedtest_cli_rust.Http.Request.Rounds.{Sent, nothing, one, round-Sent, round-again}
use speedtest_cli_rust.Http.Request.Total.{request_loop_inv}

module _ (crate : UrlCrate) where
  open crate use {Url, scheme}

  abbrev IsPlain : Request Url → Type 0
  IsPlain r = scheme r.url ≡ http

  abbrev pub IsWeb : Request Url → Type 0
  IsWeb r = (scheme r.url ≡ http) ⊎ (scheme r.url ≡ https)

  -- In a history, last request first: a request that is not over HTTPS has only plain HTTP ones
  -- before it.
  abbrev pub StaysSecure : List (Request Url) → Type 0
  StaysSecure [] = Unit
  StaysSecure (r ∷ h) = ((scheme r.url ≡ https) ⊎ All (λ q. scheme q.url ≡ http) h) × StaysSecure h

module _ (crate : UrlCrate) (wire : Wire (UrlCrate.Url crate)) (user_agent : Bytes) where
  open crate use {Url, scheme}

  record Secure (h : List (Request Url)) (ex : Exchange Url) : Type 0 where
    web : All (IsWeb crate) h
    stays : StaysSecure crate h
    next : scheme ex.url ≡ http → All (IsPlain crate) h

  abbrev Ended : List (Request Url) → Type 0
  Ended h = All (IsWeb crate) h × StaysSecure crate h

  in_order :
      (h : List (Request Url)) (ex : Exchange Url)
      → Secure h ex
      → (scheme ex.url ≡ http) ⊎ (scheme ex.url ≡ https)
      → (scheme ex.url ≡ https) ⊎ All (IsPlain crate) h
  in_order h ex s (inl plain) = inr (s.next plain)
  in_order h ex s (inr secure) = inl secure

  module _ (replayable : Bool) (headers : Headers) where
    round-Secure :
        (h : List (Request Url)) (ex ex' : Exchange Url)
        → Secure h ex
        → (round crate wire user_agent replayable headers h ex).0 ≡ again ex'
        → Secure (round crate wire user_agent replayable headers h ex).1 ex'
    unfolding request_of
    round-Secure h ex ex' s e =
        let (web, grown, m) = round-again crate wire user_agent replayable headers h ex e in
        rw grown (record {
          web = (web, s.web);
          stays = (in_order h ex s web, s.stays);
          next = λ plain. elim web [
            | inl p ↦ (p, s.next p)
            | inr secure ↦ absurd (m.no_downgrade secure plain)
          ];
        })

    round-Ended :
        (h : List (Request Url)) (ex : Exchange Url)
        → Secure h ex
        → Ended (round crate wire user_agent replayable headers h ex).1
    unfolding request_of
    round-Ended h ex s = go (round-Sent crate wire user_agent replayable headers h ex)
      where
        go : {h' : List (Request Url)} → Sent crate wire user_agent headers h ex h' → Ended h'
        go nothing = (s.web, s.stays)
        go (one web) = ((web, s.web), (in_order h ex s web, s.stays))

  -- Requests go to http and https URLs only, and once one has gone to an https URL none goes to
  -- an http URL any more, wherever the redirects point.
  pub request-StaysSecure :
      (method : Method) (url : Url) (headers : Headers) (body : RequestBody)
      (r : Result RequestError Response) (h : List (Request Url))
      → request crate wire user_agent method url headers body ≡ some (r, h)
      → All (IsWeb crate) h × StaysSecure crate h
  unfolding request
  request-StaysSecure method url headers body r h e =
      request_loop_inv crate wire user_agent (not (is_stream body)) headers Secure Ended
        (round-Secure (not (is_stream body)) headers) (round-Ended (not (is_stream body)) headers)
        max_redirects [] (initial crate wire user_agent method url body)
        (record { web = tt; stays = tt; next = λ _. tt }) r h e
