-- ===== src/Http/Request/Total.antt =====
-- `HttpClient::request` of src/http/mod.rs ends, and the rule for what its loop keeps.
use speedtest_cli_rust.Base.{
  ℕ, zero, suc, ◌+◌, ◌≤◌, ◌<◌, Bool, not, List, [], Option, some, Result, ◌≡◌, refl, arith, length,
  subst,
}
use speedtest_cli_rust.Base.Text.{Bytes}
use speedtest_cli_rust.Url.{UrlCrate}
use speedtest_cli_rust.Http.Message.{Method, RequestBody, Headers, Response}
use speedtest_cli_rust.Http.Request.{
  RequestError, Request, Wire, Exchange, Turn, done, again, is_stream, round, request_loop, request,
  initial, proceed, max_redirects,
}
use speedtest_cli_rust.Http.Request.Rounds.{Sent, nothing, one, round-Sent, round-again}

module _ (crate : UrlCrate) (wire : Wire (UrlCrate.Url crate)) (user_agent : Bytes) where
  open crate use {Url}

  abbrev History : Type 0
  History = List (Request Url)

  module _ (replayable : Bool) (headers : Headers) where
    abbrev pass : History → Exchange Url → Turn Url × History
    pass = round crate wire user_agent replayable headers

    abbrev rest : ℕ → History → Exchange Url → Option (Result RequestError Response × History)
    rest fuel = request_loop crate wire user_agent fuel replayable headers

    -- What every followed redirect keeps, the loop keeps.
    pub request_loop_inv {ℓ κ} :
        (P : History → Exchange Url → Type ℓ) (Q : History → Type κ)
        → ((h : History) (ex : Exchange Url) (ex' : Exchange Url)
            → P h ex
            → (pass h ex).0 ≡ again ex'
            → P (pass h ex).1 ex')
        → ((h : History) (ex : Exchange Url) → P h ex → Q (pass h ex).1)
        → (fuel : ℕ) (h : History) (ex : Exchange Url) → P h ex
        → (r : Result RequestError Response) (h' : History)
        → request_loop crate wire user_agent fuel replayable headers h ex ≡ some (r, h')
        → Q h'
    unfolding request_loop
    request_loop_inv P Q keep end zero h ex p r h' e = cc
    request_loop_inv P Q keep end (suc fuel) h ex p r h' e =
        go (λ ex' p' q. request_loop_inv P Q keep end fuel (pass h ex).1 ex' p' r h' q)
          (pass h ex).0 refl e
      where
        go :
            ((ex' : Exchange Url)
              → P (pass h ex).1 ex'
              → rest fuel (pass h ex).1 ex' ≡ some (r, h')
              → Q h')
            → (t : Turn Url) → (pass h ex).0 ≡ t
            → proceed crate wire user_agent t (pass h ex).1 (λ ex'. rest fuel (pass h ex).1 ex')
              ≡ some (r, h')
            → Q h'
        go later (done s) t q = let e' : (pass h ex).1 ≡ h' = cc in subst Q e' (end h ex p)
        go later (again ex') t q = later ex' (keep h ex ex' p t) q

    Sent-length :
        (h : History) (ex : Exchange Url) {h' : History}
        → Sent crate wire user_agent headers h ex h'
        → length h' ≤ length h + 1
    Sent-length h ex nothing = omega arith
    Sent-length h ex (one s) = omega arith

    -- From a round on, while the rounds left fit the fuel.
    request_loop_total :
        (fuel : ℕ) (h : History) (ex : Exchange Url)
        → length h ≡ ex.sent
        → ex.sent < max_redirects
        → max_redirects ≤ ex.sent + fuel
        → (r : Result RequestError Response) × (h' : History) × (request_loop crate wire user_agent
              fuel replayable headers h ex
            ≡ some (r, h'))
          × (length h' ≤ max_redirects)
    unfolding request_loop
    request_loop_total zero h ex l s f = absurd (omega arith)
    request_loop_total (suc fuel) h ex l s f =
        go (λ ex' l' s' f'. request_loop_total fuel (pass h ex).1 ex' l' s' f') (pass h ex).0 refl
      where
        go :
            ((ex' : Exchange Url)
              → length (pass h ex).1 ≡ ex'.sent
              → ex'.sent < max_redirects
              → max_redirects ≤ ex'.sent + fuel
              → (r : Result RequestError Response) × (h' : History) × (rest fuel (pass h ex).1 ex'
                  ≡ some (r, h'))
                × (length h' ≤ max_redirects))
            → (t : Turn Url) → (pass h ex).0 ≡ t
            → (r : Result RequestError Response) × (h' : History) × (proceed crate wire user_agent t
                  (pass h ex).1
                  (λ ex'. rest fuel (pass h ex).1 ex')
                ≡ some (r, h'))
              × (length h' ≤ max_redirects)
        go later (done r) t = (
          r,
          (pass h ex).1,
          refl,
          omega
              (arith, Sent-length h ex (round-Sent crate wire user_agent replayable headers h ex)),
        )
        go later (again ex') t =
            let (ok', grown, m) = round-again crate wire user_agent replayable headers h ex t in
            later ex' (rw grown (omega (arith, m.same_count)))
              (omega (arith, m.same_count, m.not_last)) (omega (arith, m.same_count))

  -- Whatever the peers answer, a request ends with a response or an error, and at most ten
  -- requests go out.
  pub request_total :
      (method : Method) (url : Url) (headers : Headers) (body : RequestBody)
      → (r : Result RequestError Response) × (h : History) × (request crate wire user_agent method
            url headers body
          ≡ some (r, h))
        × (length h ≤ 10)
  unfolding request initial
  request_total method url headers body =
      request_loop_total (not (is_stream body)) headers max_redirects []
        (initial crate wire user_agent method url body) refl (omega arith) (omega arith)
