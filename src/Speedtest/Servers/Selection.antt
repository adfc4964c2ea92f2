-- ===== src/Speedtest/Servers/Selection.antt =====
-- What `preprocess_servers` of src/speedtest.rs selects, and when it fails.
use speedtest_cli_rust.Base.{
  Bool, true, false, Result, ok, err, not, ◌&&◌, ◌||◌, List, [], ◌∷◌, map, ◌≡◌, refl, ap, ◌∙◌, inl,
  inr, arith, keep, is_empty, Bool-cases,
}
use speedtest_cli_rust.Base.Int.{ℤ, negsuc, contains}
use speedtest_cli_rust.Speedtest.Scheme.{ForceScheme}
use speedtest_cli_rust.Speedtest.Servers.{
  Server, SelectionError, either_exclude_or_server, not_found, with_scheme, listed, or_not_found,
  preprocess_servers,
}

-- A server that is not excluded, and is asked for when some are asked for. -1 asks for all.
abbrev pub wanted : List ℤ → List ℤ → Server → Bool
wanted excludes specific s =
    not (contains excludes s.id)
    && (is_empty specific || (contains specific (negsuc 0) || contains specific s.id))

-- The servers a run may use: all of them where there is no filter.
abbrev pub selection : List Server → ForceScheme → List ℤ → List ℤ → Bool → List Server
selection servers force excludes specific filter =
    map (with_scheme force) (keep (λ s. not filter || wanted excludes specific s) servers)

-- None of the servers has one of the ids.
abbrev pub none_of : List ℤ → List Server → Bool
none_of ids [] = true
none_of ids (s ∷ servers) = not (contains ids s.id) && none_of ids servers

-- Servers are asked for by their ids, not by -1 for all, and the list has none of them.
abbrev pub unknown : List ℤ → List Server → Bool
unknown specific servers =
    not (is_empty specific) && (not (contains specific (negsuc 0)) && none_of specific servers)

abbrev pub Describes :
    List Server
    → ForceScheme
    → List ℤ
    → List ℤ
    → Bool
    → Result SelectionError (List Server)
    → Type 0
Describes servers force excludes specific filter (ok r) =
    (r ≡ selection servers force excludes specific filter)
    × ((is_empty excludes || is_empty specific) ≡ true)
    × ((filter && unknown specific servers) ≡ false)
Describes servers force excludes specific filter (err either_exclude_or_server) =
    (is_empty excludes ≡ false) × (is_empty specific ≡ false)
Describes servers force excludes specific filter (err (not_found ids)) =
    (ids ≡ listed specific)
    × (is_empty excludes ≡ true)
    × (filter ≡ true)
    × (unknown specific servers ≡ true)

keep-map :
    (force : ForceScheme) (p : Server → Bool) (servers : List Server)
    → ((s : Server) → p (with_scheme force s) ≡ p s)
    → keep p (map (with_scheme force) servers) ≡ map (with_scheme force) (keep p servers)
keep-map force p [] h = refl
keep-map force p (s ∷ servers) h = elim (Bool-cases (p s)) [
  | inl e ↦ rw (h s, e) (ap (◌∷◌ (with_scheme force s)) (keep-map force p servers h))
  | inr e ↦ rw (h s, e) (keep-map force p servers h)
]

keep-true : (servers : List Server) → keep (λ s. true) servers ≡ servers
keep-true [] = refl
keep-true (s ∷ servers) = ap (◌∷◌ s) (keep-true servers)

keep-cong :
    (p q : Server → Bool) (servers : List Server)
    → ((s : Server) → p s ≡ q s)
    → keep p servers ≡ keep q servers
keep-cong p q [] h = refl
keep-cong p q (s ∷ servers) h = rw (h s, keep-cong p q servers h) refl

-- Nothing is kept exactly where no server has one of the ids.
keep-none_of :
    (ids : List ℤ) (servers : List Server)
    → is_empty (keep (λ s. contains ids s.id) servers) ≡ none_of ids servers
keep-none_of ids [] = refl
keep-none_of ids (s ∷ servers) = ground (arith, keep-none_of ids servers)

map-is_empty :
    (force : ForceScheme) (servers : List Server)
    → is_empty (map (with_scheme force) servers) ≡ is_empty servers
map-is_empty force [] = refl
map-is_empty force (s ∷ servers) = refl

-- The servers that are asked for by id, or the error without one.
asked_for :
    (servers : List Server) (force : ForceScheme) (specific : List ℤ)
    → is_empty specific ≡ false
    → contains specific (negsuc 0) ≡ false
    → Describes servers force [] specific true (
        or_not_found specific
          (map (with_scheme force) (keep (λ s. contains specific s.id) servers)))
unfolding contains
asked_for servers force specific e one = elim (Bool-cases (none_of specific servers)) [
  | inl h ↦
      rw
        (
          map-is_empty force (keep (λ s. contains specific s.id) servers),
          keep-none_of specific servers,
          h,
        )
        (refl, refl, refl, rw (e, one, h) refl)
  | inr h ↦
      rw
        (
          map-is_empty force (keep (λ s. contains specific s.id) servers),
          keep-none_of specific servers,
          h,
          e,
          one,
        )
        (refl, refl, h)
]

-- The result is every server that is wanted, in the list's order and under the forced scheme. The
-- errors are that both options are given, and that servers are asked for by id and the list has
-- none of them.
pub preprocess_servers_lem :
    (servers : List Server) (force : ForceScheme) (excludes specific : List ℤ) (filter : Bool)
    → Describes servers force excludes specific filter
        (preprocess_servers servers force excludes specific filter)
unfolding preprocess_servers contains
preprocess_servers_lem servers force (x ∷ excludes) (y ∷ specific) filter = (refl, refl)
preprocess_servers_lem servers force [] specific false = (rw (keep-true servers) refl, refl, refl)
preprocess_servers_lem servers force (x ∷ excludes) [] false =
    (rw (keep-true servers) refl, refl, refl)
preprocess_servers_lem servers force (x ∷ excludes) [] true = (
  keep-map force (λ s. not (contains (x ∷ excludes) s.id)) servers (λ s. unfold with_scheme in refl)
      ∙ ap (map (with_scheme force)) (
          keep-cong (λ s. not (contains (x ∷ excludes) s.id)) (wanted (x ∷ excludes) []) servers
            (λ s. ground arith)),
  refl,
  refl,
)
preprocess_servers_lem servers force [] [] true = (rw (keep-true servers) refl, refl, refl)
preprocess_servers_lem servers force [] (y ∷ specific) true =
    elim (Bool-cases (contains (y ∷ specific) (negsuc 0))) [
      | inl h ↦ rw h (rw h (rw (keep-true servers) refl), refl, rw h refl)
      | inr h ↦
          rw
            (
              h,
              keep-map force (λ s. contains (y ∷ specific) s.id) servers
                  (λ s. unfold with_scheme in refl),
            )
            (asked_for servers force (y ∷ specific) refl h)
    ]
