-- ===== src/Http/Request/Bodies.antt =====
-- What the requests of `HttpClient::request` carry: src/http/mod.rs.
use speedtest_cli_rust.Base.{
  true, false, List, [], ◌∷◌, none, some, Result, ◌≡◌, refl, ◌∙◌, ◌⊎◌, inl, inr, All, Bool-cases,
}
use speedtest_cli_rust.Base.Text.{Bytes, eq_text}
use speedtest_cli_rust.Url.{UrlCrate}
use speedtest_cli_rust.Http.Message.{
  Method, get, empty_body, full_body, bytes, Headers, content_type, Response,
}
use speedtest_cli_rust.Http.Origin.{same_origin, same_origin_iff}
use speedtest_cli_rust.Http.Request.{
  RequestError, Request, Wire, Exchange, again, sent_headers, round, request, request_of, initial,
  max_redirects, left_behind,
}
use speedtest_cli_rust.Http.Request.Rounds.{
  Moved, Sent, nothing, one, round-Sent, round-again, sent_once,
}
use speedtest_cli_rust.Http.Request.Total.{request_loop_inv}

-- No Content-Type among the headers.
abbrev pub NoContentType : Headers → Type 0
NoContentType = All (λ h. eq_text h.0 content_type ≡ false)

sent_headers-NoContentType : (hs : Headers) → NoContentType (sent_headers true hs)
unfolding sent_headers
sent_headers-NoContentType [] = tt
sent_headers-NoContentType ((name, value) ∷ hs) = elim (Bool-cases (eq_text name content_type)) [
  | inl same ↦ rw same (sent_headers-NoContentType hs)
  | inr other ↦ rw other (other, sent_headers-NoContentType hs)
]

module _ (crate : UrlCrate) (wire : Wire (UrlCrate.Url crate)) (user_agent : Bytes) where
  open crate use {Url, scheme, host_str, port_or_known_default}

  -- The two URLs have one scheme, one host and one effective port.
  pub record SameOrigin (a b : Url) : Type 0 where
    pub scheme_eq : scheme a ≡ scheme b
    pub host_eq : host_str a ≡ host_str b
    pub port_eq : port_or_known_default a ≡ port_or_known_default b

  SameOrigin_trans : (a b c : Url) → SameOrigin a b → same_origin crate b c ≡ true → SameOrigin a c
  SameOrigin_trans a b c s e =
      let (x, y, z) = (same_origin_iff crate b c).0 e in
      record { scheme_eq = s.scheme_eq ∙ x; host_eq = s.host_eq ∙ y; port_eq = s.port_eq ∙ z }

  -- A GET with nothing left of the body, its Content-Type included.
  pub record IsBare (r : Request Url) : Type 0 where
    pub method_get : r.method ≡ get
    pub no_body : r.body ≡ empty_body
    pub no_type : NoContentType r.headers

  module _ (headers : Headers) where
    pub request_of-IsBare :
        (ex : Exchange Url)
        → ex.method ≡ get
        → ex.body ≡ none
        → IsBare (request_of crate wire user_agent headers ex)
    unfolding request_of eq_text
    request_of-IsBare ex m b = record {
      method_get = m;
      no_body = rw b refl;
      no_type = rw b (refl, sent_headers-NoContentType headers);
    }

  module _ (method : Method) (url : Url) (b : Bytes) where
    -- The body went along, to the origin it was meant for; or nothing of it did.
    abbrev pub IsConfined : Request Url → Type 0
    IsConfined r = ((r.method ≡ method) × (r.body ≡ full_body b) × SameOrigin url r.url) ⊎ IsBare r

    record Confined (h : List (Request Url)) (ex : Exchange Url) : Type 0 where
      sent : All IsConfined h
      next :
          ((ex.method ≡ method) × (ex.body ≡ some (bytes b)) × SameOrigin url ex.url)
          ⊎ ((ex.method ≡ get) × (ex.body ≡ none))

    module _ (headers : Headers) where
      request_of-IsConfined :
          (h : List (Request Url)) (ex : Exchange Url)
          → Confined h ex
          → IsConfined (request_of crate wire user_agent headers ex)
      request_of-IsConfined h ex c = elim (c.next) [
        | inl (m, body, origin) ↦ inl (unfold request_of in (m, rw body refl, origin))
        | inr (m, body) ↦ inr (request_of-IsBare headers ex m body)
      ]

      round-IsConfined :
          (h : List (Request Url)) (ex : Exchange Url)
          → Confined h ex
          → All IsConfined (round crate wire user_agent true headers h ex).1
      round-IsConfined h ex c = go (round-Sent crate wire user_agent true headers h ex)
        where
          go :
              {h' : List (Request Url)}
              → Sent crate wire user_agent headers h ex h'
              → All IsConfined h'
          go nothing = c.sent
          go (one web) = (request_of-IsConfined h ex c, c.sent)

      next_kept :
          (h : List (Request Url)) (ex ex' : Exchange Url)
          → Confined h ex
          → Moved crate true (sent_once crate wire user_agent ex) ex'
          → ((ex'.method ≡ method) × (ex'.body ≡ some (bytes b)) × SameOrigin url ex'.url)
            ⊎ ((ex'.method ≡ get) × (ex'.body ≡ none))
      next_kept h ex ex' c m = elim (m.kept_or_dropped) [
        | inl dropped ↦ inr dropped
        | inr (_, same_method, same_body, same) ↦ elim (c.next) [
          | inl (meth, body, origin) ↦
              let left : left_behind ex.body ≡ some (bytes b) = rw body refl in
              inl (
                same_method ∙ meth,
                same_body ∙ left,
                SameOrigin_trans url ex.url ex'.url origin (same (rw left refl)),
              )
          | inr (meth, body) ↦ inr (same_method ∙ meth, same_body ∙ rw body refl)
        ]
      ]

      round-Confined :
          (h : List (Request Url)) (ex ex' : Exchange Url)
          → Confined h ex
          → (round crate wire user_agent true headers h ex).0 ≡ again ex'
          → Confined (round crate wire user_agent true headers h ex).1 ex'
      round-Confined h ex ex' c e =
          let (web, grown, m) = round-again crate wire user_agent true headers h ex e in
          rw grown (record {
            sent = (request_of-IsConfined h ex c, c.sent);
            next = next_kept h ex ex' c m;
          })

  -- A body held in memory goes to the origin it was meant for and to no other, under the method it
  -- was meant for. Every request that does not carry it is a GET with no body and no Content-Type.
  pub request-IsConfined :
      (method : Method) (url : Url) (headers : Headers) (b : Bytes)
      (r : Result RequestError Response) (h : List (Request Url))
      → request crate wire user_agent method url headers (bytes b) ≡ some (r, h)
      → All (IsConfined method url b) h
  unfolding request initial
  request-IsConfined method url headers b r h e =
      request_loop_inv crate wire user_agent true headers (Confined method url b)
        (All (IsConfined method url b)) (round-Confined method url b headers)
        (round-IsConfined method url b headers) max_redirects []
        (initial crate wire user_agent method url (bytes b))
        (record {
          sent = tt;
          next = inl (refl, refl, record { scheme_eq = refl; host_eq = refl; port_eq = refl });
        })
        r h e
