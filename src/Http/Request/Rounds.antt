-- ===== src/Http/Request/Rounds.antt =====
-- What one pass of the loop of `HttpClient::request` does, src/http/mod.rs.
use speedtest_cli_rust.Base.{
  ℕ, ◌+◌, Bool, true, false, not, ◌||◌, List, [], ◌∷◌, Option, none, some, Result, ◌≡◌, ◌≢◌, refl,
  ap, ◌⊎◌, inl, inr, arith, Bool-cases,
}
use speedtest_cli_rust.Base.Text.{Text, Bytes, eq_text, eq_text_iff}
use speedtest_cli_rust.Url.{UrlCrate}
use speedtest_cli_rust.Http.Message.{get, Headers, Response}
use speedtest_cli_rust.Http.Origin.{same_origin}
use speedtest_cli_rust.Http.Request.{
  RequestError, Request, Wire, Exchange, done, again, http, https, is_bytes, left_behind,
  keeps_body, redirect_to, join_target, read_location, find_location, match_status, answered,
  request_of, round, max_redirects,
}

module _ (crate : UrlCrate) where
  open crate use {Url, scheme}

  -- What a redirect that is followed does to the loop's variables; `before` has sent its request.
  pub record Moved (replayable : Bool) (before after : Exchange Url) : Type 0 where
    pub no_downgrade : scheme before.url ≡ https → scheme after.url ≢ http
    pub same_count : after.sent ≡ before.sent
    pub not_last : before.sent ≢ max_redirects
    pub kept_or_dropped :
        ((after.method ≡ get) × (after.body ≡ none))
        ⊎ ((replayable ≡ true)
            × (after.method ≡ before.method)
            × (after.body ≡ before.body)
            × (is_bytes before.body ≡ true → same_origin crate before.url after.url ≡ true))

  again-injective : {a b : Exchange Url} → again a ≡ again b → a ≡ b
  again-injective e = cc

  done-ne-again : {r : Result RequestError Response} {b : Exchange Url} → done r ≢ again b
  done-ne-again e = cc

module _ (crate : UrlCrate) (wire : Wire (UrlCrate.Url crate)) (user_agent : Bytes) where
  open crate use {Url, scheme, as_str, join_url}
  open wire use {reply, is_uri, header_text}

  redirect_to-Moved :
      (replayable keeps : Bool) (ex : Exchange Url) (next : Url) {ex' : Exchange Url}
      → (keeps ≡ true → replayable ≡ true)
      → redirect_to crate wire user_agent keeps ex next ≡ again ex'
      → Moved crate replayable ex ex'
  unfolding redirect_to
  redirect_to-Moved replayable keeps ex next {ex'} k e = record {
    no_downgrade =
        ground (arith, eq_text_iff (scheme ex.url) https, eq_text_iff (scheme next) http);
    same_count = ground arith;
    not_last = ground arith;
    kept_or_dropped = ground arith;
  }

  module _ (replayable keeps : Bool) (k : keeps ≡ true → replayable ≡ true)
      (ex : Exchange Url) where
    join_target-Moved :
        (next : Option Url) {ex' : Exchange Url}
        → join_target crate wire user_agent keeps ex next ≡ again ex'
        → Moved crate replayable ex ex'
    unfolding join_target
    join_target-Moved none e = absurd (done-ne-again crate e)
    join_target-Moved (some next) e = redirect_to-Moved replayable keeps ex next k e

    read_location-Moved :
        (location : Option Text) {ex' : Exchange Url}
        → read_location crate wire user_agent keeps ex location ≡ again ex'
        → Moved crate replayable ex ex'
    unfolding read_location
    read_location-Moved none e = absurd (done-ne-again crate e)
    read_location-Moved (some text) e = join_target-Moved (join_url ex.url text) e

    find_location-Moved :
        (resp : Response) (location : Option Bytes) {ex' : Exchange Url}
        → find_location crate wire user_agent keeps ex resp location ≡ again ex'
        → Moved crate replayable ex ex'
    unfolding find_location
    find_location-Moved resp none e = absurd (done-ne-again crate e)
    find_location-Moved resp (some []) e = absurd (done-ne-again crate e)
    find_location-Moved resp (some (b ∷ l)) e = read_location-Moved (header_text (b ∷ l)) e

  keeps_body-replayable :
      (replayable : Bool) (status : ℕ)
      → keeps_body replayable status ≡ some true
      → replayable ≡ true
  unfolding keeps_body
  keeps_body-replayable replayable status e = ground arith

  match_status-Moved :
      (replayable : Bool) (ex : Exchange Url) (resp : Response) (keeps : Option Bool)
      {ex' : Exchange Url}
      → (keeps ≡ some true → replayable ≡ true)
      → match_status crate wire user_agent ex resp keeps ≡ again ex'
      → Moved crate replayable ex ex'
  unfolding match_status
  match_status-Moved replayable ex resp none k e = absurd (done-ne-again crate e)
  match_status-Moved replayable ex resp (some keeps) k e =
      find_location-Moved replayable keeps (λ h. k (ap some h)) ex resp resp.location e

  answered-Moved :
      (replayable : Bool) (ex : Exchange Url) (reply' : Option Response) {ex' : Exchange Url}
      → answered crate wire user_agent replayable ex reply' ≡ again ex'
      → Moved crate replayable ex ex'
  unfolding answered
  answered-Moved replayable ex none e = absurd (done-ne-again crate e)
  answered-Moved replayable ex (some resp) e =
      match_status-Moved replayable ex resp (keeps_body replayable resp.status)
        (keeps_body-replayable replayable resp.status) e

  -- The exchange once its request is out.
  abbrev pub sent_once : Exchange Url → Exchange Url
  sent_once ex = record ex { body = left_behind ex.body; sent = ex.sent + 1 }

  -- What a round that ends the loop or goes on has sent.
  pub data Sent (headers : Headers) (history : List (Request Url)) (ex : Exchange Url)
      : List (Request Url) → Type 0 where
    nothing : Sent headers history ex history
    one :
        (scheme ex.url ≡ http) ⊎ (scheme ex.url ≡ https)
        → Sent headers history ex (request_of crate wire user_agent headers ex ∷ history)

  supported :
      (s : Text) → not (eq_text s http || eq_text s https) ≡ false → (s ≡ http) ⊎ (s ≡ https)
  supported s h = ground (arith, eq_text_iff s http, eq_text_iff s https)

  module _ (replayable : Bool) (headers : Headers) (history : List (Request Url))
      (ex : Exchange Url) where
    pub round-Sent :
        Sent headers history ex (round crate wire user_agent replayable headers history ex).1
    unfolding round
    round-Sent =
        elim (Bool-cases (not (eq_text (scheme ex.url) http || eq_text (scheme ex.url) https))) [
          | inl bad ↦ rw bad nothing
          | inr good ↦ rw good (elim (Bool-cases (not (is_uri (as_str ex.url)))) [
            | inl bad ↦ rw bad nothing
            | inr fine ↦ rw fine (one (supported (scheme ex.url) good))
          ])
        ]

    -- A redirect that is followed: the request went out, and the variables moved on.
    pub round-again :
        {ex' : Exchange Url}
        → (round crate wire user_agent replayable headers history ex).0 ≡ again ex'
        → ((scheme ex.url ≡ http) ⊎ (scheme ex.url ≡ https))
          × ((round crate wire user_agent replayable headers history ex).1
              ≡ request_of crate wire user_agent headers ex ∷ history)
          × Moved crate replayable (sent_once ex) ex'
    unfolding round
    round-again {ex'} e =
        elim (Bool-cases (not (eq_text (scheme ex.url) http || eq_text (scheme ex.url) https))) [
          | inl bad ↦ absurd (done-ne-again crate (rw bad at e))
          | inr good ↦ elim (Bool-cases (not (is_uri (as_str ex.url)))) [
            | inl bad ↦ absurd (done-ne-again crate (rw (good, bad) at e))
            | inr fine ↦ (
              supported (scheme ex.url) good,
              rw (good, fine) refl,
              answered-Moved replayable (sent_once ex) _ (rw (good, fine) at e),
            )
          ]
        ]
