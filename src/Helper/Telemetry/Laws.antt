-- ===== src/Helper/Telemetry/Laws.antt =====
-- How `send_telemetry` of src/helper.rs ends.
use speedtest_cli_rust.Base.{
  ℕ, zero, suc, ◌≤◌, true, false, List, [], ◌∷◌, ◌++◌, ◌≡◌, ◌≢◌, refl, sym, ap, subst, ◌∙◌, Result,
  ok, err, ◌>>=◌, >>=-eq-ok, within, take, length, length-take, All, arith, inl, inr, Bool-cases,
}
use speedtest_cli_rust.Base.Text.{Text, codes}
use speedtest_cli_rust.Base.Split.{split, join, Lacks, split-All, join-split}
use speedtest_cli_rust.Output.Sanitize.{sanitize}
use speedtest_cli_rust.Output.Sanitize.Laws.{Harmless, sanitize-Harmless}
use speedtest_cli_rust.Url.{UrlCrate}
use speedtest_cli_rust.Defs.Telemetry.{TelemetryServer, get_path, get_share}
use speedtest_cli_rust.Helper.Multipart.{multipart_form}
use speedtest_cli_rust.Helper.Telemetry.{
  Measured, SendError, invalid_response, written, shown, address, link, share_link, responded,
  form_fields, send_telemetry, Post,
}

Harmless-take : (n : ℕ) (s : Text) → Harmless s → Harmless (take n s)
Harmless-take zero s h = tt
Harmless-take (suc n) [] h = tt
Harmless-take (suc n) (c ∷ s) h = (h.0, Harmless-take n s h.1)

module _ (crate : UrlCrate) where
  open crate use {Url, append_pair, as_str}

  -- The response is an answer and an id with one space between them, and the link is the share URL
  -- with the id in its query.
  abbrev pub IsLinked : TelemetryServer → Text → Text → Type 0
  IsLinked t response l =
      (answer : Text) × (id : Text) × (u : Url) × (response ≡ answer ++ b' ' ∷ id)
      × Lacks b' ' answer
      × Lacks b' ' id
      × (get_share crate t ≡ ok u)
      × (l ≡ as_str (append_pair u (codes "id") id))

  address-eq-ok : (r : Result Text Url) {u : Url} → address crate r ≡ ok u → r ≡ ok u
  address-eq-ok (ok u) e = cc
  address-eq-ok (err _) e = cc

  link-eq-ok :
      (id : Text) (r : Result SendError Url) {l : Text}
      → link crate id r ≡ ok l
      → (u : Url) × (r ≡ ok u) × (l ≡ as_str (append_pair u (codes "id") id))
  link-eq-ok id (ok u) e = (u, refl, cc)
  link-eq-ok id (err _) e = cc

  share_link-IsLinked :
      (t : TelemetryServer) (response : Text) {l : Text}
      → share_link crate t response (split b' ' response) ≡ ok l
      → IsLinked t response l
  share_link-IsLinked t response {l} e = go (split b' ' response) refl e
    where
      go :
          (parts : List Text)
          → split b' ' response ≡ parts
          → share_link crate t response parts ≡ ok l
          → IsLinked t response l
      go [] q h = cc
      go (answer ∷ []) q h = cc
      go (answer ∷ id ∷ []) q h =
          let (u, a, s) = link-eq-ok id (address crate (get_share crate t)) h in
          let lacks : All (Lacks b' ') (answer ∷ id ∷ []) =
            subst (All (Lacks b' ')) q (split-All b' ' response) in
          let whole : join b' ' (split b' ' response) ≡ response = join-split b' ' response in
          (
            answer,
            id,
            u,
            sym whole ∙ (ap (join b' ') q ∙ unfold join in refl),
            lacks.0,
            lacks.1.0,
            address-eq-ok (get_share crate t) a,
            s,
          )
      go (answer ∷ id ∷ more ∷ parts) q h = cc

  -- What a run that gets a link has sent and got: the form of the seven fields, once, to the
  -- telemetry server's path, and a success status with a response that makes the link.
  abbrev pub Sends : Post crate → Text → TelemetryServer → Measured → Text → Type 0
  Sends post boundary t m l =
      (isp_json : Text) × (extra_json : Text) × (url : Url) × (status : ℕ) × (response : Text)
      × (m.isp_json ≡ ok isp_json)
      × (m.extra_json ≡ ok extra_json)
      × (get_path crate t ≡ ok url)
      × (post url (multipart_form boundary (form_fields m isp_json extra_json)).0
            (multipart_form boundary (form_fields m isp_json extra_json)).1
          ≡ ok (status, response))
      × (within 200 299 status ≡ true)
      × IsLinked t response l

  written-eq-ok : (r : Result Text Text) {s : Text} → written r ≡ ok s → r ≡ ok s
  written-eq-ok (ok u) e = cc
  written-eq-ok (err _) e = cc

  responded-eq-ok :
      (t : TelemetryServer) (r : Result Text (ℕ × Text)) {l : Text}
      → responded crate t r ≡ ok l
      → (status : ℕ) × (response : Text) × (r ≡ ok (status, response))
        × (within 200 299 status ≡ true)
        × IsLinked t response l
  responded-eq-ok t (err _) e = cc
  responded-eq-ok t (ok (status, response)) {l} e = elim (Bool-cases (within 200 299 status)) [
    | inl h ↦ (status, response, refl, h, share_link-IsLinked t response (reached h e))
    | inr h ↦ absurd (refused h e)
  ]
    where
      reached :
          within 200 299 status ≡ true
          → responded crate t (ok (status, response)) ≡ ok l
          → share_link crate t response (split b' ' response) ≡ ok l
      reached h q = ground arith

      refused : within 200 299 status ≡ false → responded crate t (ok (status, response)) ≢ ok l
      refused h = ground arith

  -- A link is returned only where the form went out and the server's answer is sound: see `Sends`.
  pub send_telemetry-Sends :
      (post : Post crate) (boundary : Text) (t : TelemetryServer) (m : Measured) {l : Text}
      → send_telemetry crate post boundary t m ≡ ok l
      → Sends post boundary t m l
  unfolding send_telemetry
  send_telemetry-Sends post boundary t m e =
      let (isp_json, a, e1) = >>=-eq-ok (written m.isp_json) _ e in
      let (extra_json, b, e2) = >>=-eq-ok (written m.extra_json) _ e1 in
      let (url, c, e3) = >>=-eq-ok (address crate (get_path crate t)) _ e2 in
      let (status, response, p, s, i) = responded-eq-ok t _ e3 in
      (
        isp_json,
        extra_json,
        url,
        status,
        response,
        written-eq-ok m.isp_json a,
        written-eq-ok m.extra_json b,
        address-eq-ok (get_path crate t) c,
        p,
        s,
        i,
      )

  shown-short : (response : Text) → Harmless (shown response) × (length (shown response) ≤ 200)
  shown-short response = (
    Harmless-take 200 (sanitize response) (sanitize-Harmless response),
    omega (arith, length-take 200 (sanitize response)),
  )

  -- The text of an error is one that can be shown: where it comes from the telemetry server's
  -- response it steers no terminal and has 200 characters at most.
  abbrev pub IsShowable : SendError → Type 0
  IsShowable (invalid_response s) = Harmless s × (length s ≤ 200)
  IsShowable _ = Unit

  abbrev pub FailsShowably : Result SendError Text → Type 0
  FailsShowably (ok l) = Unit
  FailsShowably (err e) = IsShowable e

  link-Fails : (id : Text) (r : Result Text Url) → FailsShowably (link crate id (address crate r))
  link-Fails id (ok u) = tt
  link-Fails id (err e) = tt

  share_link-Fails :
      (t : TelemetryServer) (response : Text) (parts : List Text)
      → FailsShowably (share_link crate t response parts)
  share_link-Fails t response [] = shown-short response
  share_link-Fails t response (answer ∷ []) = shown-short response
  share_link-Fails t response (answer ∷ id ∷ []) = link-Fails id (get_share crate t)
  share_link-Fails t response (answer ∷ id ∷ more ∷ parts) = shown-short response

  responded-Fails :
      (t : TelemetryServer) (r : Result Text (ℕ × Text)) → FailsShowably (responded crate t r)
  responded-Fails t (err e) = tt
  responded-Fails t (ok (status, response)) = elim (Bool-cases (within 200 299 status)) [
    | inl h ↦ rw h (share_link-Fails t response (split b' ' response))
    | inr h ↦ rw h tt
  ]

  -- Whatever the telemetry server responds, the part of it that an error repeats steers no terminal
  -- and has 200 characters at most.
  send_telemetry-FailsShowably :
      (post : Post crate) (boundary : Text) (t : TelemetryServer) (m : Measured)
      → FailsShowably (send_telemetry crate post boundary t m)
  unfolding send_telemetry
  send_telemetry-FailsShowably post boundary t m = go m.isp_json m.extra_json (get_path crate t)
    where
      go :
          (a b : Result Text Text) (c : Result Text Url)
          → FailsShowably (
              written a >>= (λ isp_json. written b >>= (λ extra_json. address crate c >>= (λ url.
                responded crate t (
                  post url
                    (multipart_form boundary (form_fields m isp_json extra_json)).0
                    (multipart_form boundary (form_fields m isp_json extra_json)).1)))))
      go (err e) b c = tt
      go (ok isp) (err e) c = tt
      go (ok isp) (ok extra) (err e) = tt
      go (ok isp) (ok extra) (ok url) = responded-Fails t (
          post url (multipart_form boundary (form_fields m isp extra)).0
            (multipart_form boundary (form_fields m isp extra)).1)
