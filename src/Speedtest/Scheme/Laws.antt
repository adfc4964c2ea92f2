-- ===== src/Speedtest/Scheme/Laws.antt =====
-- What `apply_scheme` of src/speedtest.rs makes of a server's address.
use speedtest_cli_rust.Base.{some, ◌≡◌, refl, sym, ◌∙◌, ap, inl, inr, Option-cases}
use speedtest_cli_rust.Base.Text.{Text, codes, strip_prefix}
use speedtest_cli_rust.Base.Find.{find, find-eq-some}
use speedtest_cli_rust.Speedtest.Scheme.{
  ForceScheme, nothing, https, http, separator, or_http, rest_of, apply_scheme,
}

-- The part behind the first `://`, or the whole text without one.
abbrev pub address : Text → Text
address raw = rest_of raw (find separator raw)

-- The scheme of a text, and `http` for a text without one.
abbrev pub scheme_of : Text → Text
scheme_of raw = or_http (find separator raw)

abbrev pub chosen : ForceScheme → Text → Text
chosen nothing s = s
chosen https s = codes "https"
chosen http s = codes "http"

found_again :
    (raw : Text) (force : ForceScheme)
    → find separator (apply_scheme raw force) ≡ some (chosen force (scheme_of raw), address raw)
unfolding apply_scheme
found_again raw https = elim (Option-cases (find separator raw)) [
  | inl e ↦ rw e (unfold find strip_prefix in refl)
  | inr ((s, r), e) ↦ rw e (unfold find strip_prefix in refl)
]
found_again raw http = elim (Option-cases (find separator raw)) [
  | inl e ↦ rw e (unfold find strip_prefix in refl)
  | inr ((s, r), e) ↦ rw e (unfold find strip_prefix in refl)
]
found_again raw nothing = elim (Option-cases (find separator raw)) [
  | inl e ↦ rw e (unfold find strip_prefix in refl)
  | inr ((s, r), e) ↦ rw e (ap (find separator) (sym (find-eq-some separator raw e)) ∙ e)
]

-- The address behind the scheme is kept, whatever it is, and the scheme is the one that is
-- forced, or the text's own, or `http`.
apply_scheme_lem :
    (raw : Text) (force : ForceScheme)
    → (address (apply_scheme raw force) ≡ address raw)
      × (scheme_of (apply_scheme raw force) ≡ chosen force (scheme_of raw))
apply_scheme_lem raw force = (rw (found_again raw force) refl, rw (found_again raw force) refl)
