-- ===== src/Base/Find.antt =====
-- `str::find` with the text before and behind the first occurrence of a pattern.
use mathlib.Core.List.{append_assoc}
use speedtest_cli_rust.Base.{
  ℕ, ◌≤◌, ◌⊎◌, length, length-append, Option, none, some, [], ◌∷◌, ◌++◌, ◌≡◌, refl, sym, ap, inl,
  inr, arith,
}
use speedtest_cli_rust.Base.Text.{Text, strip_prefix, strip_prefix-append, strip_prefix-eq-some}

abbrev pub onto_before : ℕ → Option (Text × Text) → Option (Text × Text)
onto_before c none = none
onto_before c (some (before, after)) = some (c ∷ before, after)

abbrev pub first_or : Option Text → Option (Text × Text) → Option (Text × Text)
first_or none later = later
first_or (some after) later = some ([], after)

-- `raw.find(p)` as `(&raw[..i], &raw[i + p.len()..])`.
unfoldable pub find : Text → Text → Option (Text × Text)
find p [] = first_or (strip_prefix [] p) none
find p (c ∷ s) = let later = onto_before c (find p s) in first_or (strip_prefix (c ∷ s) p) later

first_or-eq-some :
    (p s : Text) (later : Option (Text × Text)) {before after : Text}
    → first_or (strip_prefix s p) later ≡ some (before, after)
    → (later ≡ some (before, after) → s ≡ before ++ (p ++ after))
    → s ≡ before ++ (p ++ after)
first_or-eq-some p s later {before} {after} e f = go (strip_prefix s p) refl e
  where
    go :
        (r : Option Text)
        → strip_prefix s p ≡ r
        → first_or r later ≡ some (before, after)
        → s ≡ before ++ (p ++ after)
    go none q g = f g
    go (some rest) q g = cc (strip_prefix-eq-some s p q)

onto_before-eq-some :
    (p : Text) (c : ℕ) (s : Text) (r : Option (Text × Text)) {before after : Text}
    → ((b a : Text) → r ≡ some (b, a) → s ≡ b ++ (p ++ a))
    → onto_before c r ≡ some (before, after)
    → c ∷ s ≡ before ++ (p ++ after)
onto_before-eq-some p c s none f e = cc
onto_before-eq-some p c s (some (b, a)) f e = cc (f b a refl)

-- What is found is a split of the text at the pattern.
pub find-eq-some :
    (p s : Text) {before after : Text}
    → find p s ≡ some (before, after)
    → s ≡ before ++ (p ++ after)
unfolding find
find-eq-some p [] e = first_or-eq-some p [] none e (λ q. cc)
find-eq-some p (c ∷ s) e =
    first_or-eq-some p (c ∷ s) (onto_before c (find p s)) e
      (onto_before-eq-some p c s (find p s) (λ b a q. find-eq-some p s q))

strip_prefix-more :
    (s p t : Text) {rest : Text}
    → strip_prefix s p ≡ some rest
    → strip_prefix (s ++ t) p ≡ some (rest ++ t)
strip_prefix-more s p t {rest} e =
    rw (strip_prefix-eq-some s p e) (rw (append_assoc p rest t) (strip_prefix-append p (rest ++ t)))

strip_prefix-none_more :
    (s p t : Text) → length p ≤ length s → strip_prefix s p ≡ none → strip_prefix (s ++ t) p ≡ none
unfolding strip_prefix
strip_prefix-none_more s [] t h e = cc
strip_prefix-none_more [] (c ∷ p) t h e = absurd (omega arith)
strip_prefix-none_more (d ∷ s) (c ∷ p) t h e = ground (arith, strip_prefix-none_more s p t)

find-length : (p s : Text) {b a : Text} → find p s ≡ some (b, a) → length p ≤ length s
find-length p s {b} {a} e =
    let same : length s ≡ length (b ++ (p ++ a)) = ap length (find-eq-some p s e) in
    omega (arith, same, length-append b (p ++ a), length-append p a)

first_or-cases :
    (r : Option Text) (later : Option (Text × Text)) {b a : Text}
    → first_or r later ≡ some (b, a)
    → ((r ≡ some a) × (b ≡ [])) ⊎ ((r ≡ none) × (later ≡ some (b, a)))
first_or-cases none later e = inr (refl, e)
first_or-cases (some after) later e = inl (cc, cc)

onto_before-cases :
    (c : ℕ) (r : Option (Text × Text)) {b a : Text}
    → onto_before c r ≡ some (b, a)
    → (b' : Text) × (r ≡ some (b', a)) × (b ≡ c ∷ b')
onto_before-cases c none e = cc
onto_before-cases c (some (b', a')) e = (b', cc, cc)

append-eq-nil : (p a : Text) → [] ≡ p ++ a → (p ≡ []) × (a ≡ [])
append-eq-nil [] a e = (refl, sym e)
append-eq-nil (c ∷ p) a e = cc

find-nil : (t : Text) → find [] t ≡ some ([], t)
unfolding find strip_prefix
find-nil [] = refl
find-nil (c ∷ t) = refl

-- What is found is found in a longer text too, with more behind it.
pub find-more :
    (p s t : Text) {b a : Text} → find p s ≡ some (b, a) → find p (s ++ t) ≡ some (b, a ++ t)
unfolding find
find-more p [] t {b} {a} e = elim (first_or-cases (strip_prefix [] p) none e) [
  | inl (q, z) ↦
      let (no_p, no_a) = append-eq-nil p a (strip_prefix-eq-some [] p q) in
      rw (no_p, no_a, z) (find-nil t)
  | inr (q, z) ↦ cc
]
find-more p (c ∷ s) t {b} {a} e =
    elim (first_or-cases (strip_prefix (c ∷ s) p) (onto_before c (find p s)) e) [
      | inl (q, z) ↦ rw (strip_prefix-more (c ∷ s) p t q, z) refl
      | inr (q, z) ↦
          let (b', found, same) = onto_before-cases c (find p s) z in
          let longer = find-length p s found in
          rw
            (
              strip_prefix-none_more (c ∷ s) p t (omega (arith, longer)) q,
              find-more p s t found,
              same,
            )
            refl
    ]
