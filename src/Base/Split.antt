-- ===== src/Base/Split.antt =====
-- `str::split` on one character and `[_]::join`, with the laws that make them inverse.
use speedtest_cli_rust.Base.Tests.{◌==◌, ==_iff, ==_refl, if◌then◌else◌, Bool-cases}
use speedtest_cli_rust.Base.Lists.{All}
use speedtest_cli_rust.Base.Text.{Text}
use Prim.Native.Nat.{ℕ}
use mathlib.Core.Path.{◌≡◌, refl, ap, ◌∙◌}
use mathlib.Core.Logic.{◌≢◌, inl, inr}
use mathlib.Core.Bool.{false}
use mathlib.Core.List.{List, [], ◌∷◌, ◌++◌}
use native.Mathlib.Omega.{arith}

-- Puts a character in front of the first piece. `split` never returns an empty list.
abbrev pub onto_first : ℕ → List Text → List Text
onto_first x [] = (x ∷ []) ∷ []
onto_first x (s ∷ ss) = (x ∷ s) ∷ ss

unfoldable pub split : ℕ → Text → List Text
split c [] = [] ∷ []
split c (x ∷ xs) = let rest = split c xs in if x == c then [] ∷ rest else onto_first x rest

unfoldable pub join : ℕ → List Text → Text
join c [] = []
join c (s ∷ []) = s
join c (s ∷ t ∷ ss) = s ++ (c ∷ join c (t ∷ ss))

-- The character does not occur.
abbrev pub Lacks : ℕ → Text → Type 0
Lacks c = All (λ x. (x == c) ≡ false)

pub split-append-cons :
    (c : ℕ) (s rest : Text) → Lacks c s → split c (s ++ (c ∷ rest)) ≡ s ∷ split c rest
unfolding split
split-append-cons c [] rest h = rw (==_refl c)
split-append-cons c (x ∷ s) rest h = rw (h.0) (rw (split-append-cons c s rest h.1))

pub split-Lacks : (c : ℕ) (s : Text) → Lacks c s → split c s ≡ s ∷ []
unfolding split
split-Lacks c [] h = refl
split-Lacks c (x ∷ s) h = rw (h.0) (rw (split-Lacks c s h.1))

pub split-join :
    (c : ℕ) (s : Text) (ss : List Text)
    → All (Lacks c) (s ∷ ss)
    → split c (join c (s ∷ ss)) ≡ s ∷ ss
unfolding join
split-join c s [] h = split-Lacks c s h.0
split-join c s (t ∷ ss) h =
    split-append-cons c s (join c (t ∷ ss)) h.0 ∙ ap (◌∷◌ s) (split-join c t ss h.1)

onto_first-All :
    (c x : ℕ) (ss : List Text)
    → (x == c) ≡ false
    → All (Lacks c) ss
    → All (Lacks c) (onto_first x ss)
onto_first-All c x [] e h = ((e, tt), tt)
onto_first-All c x (s ∷ ss) e h = ((e, h.0), h.1)

-- No piece holds the separator.
pub split-All : (c : ℕ) (s : Text) → All (Lacks c) (split c s)
unfolding split
split-All c [] = (tt, tt)
split-All c (x ∷ s) = elim (Bool-cases (x == c)) [
  | inl same ↦ rw same (tt, split-All c s)
  | inr other ↦ rw other (onto_first-All c x (split c s) other (split-All c s))
]

pub join-cons :
    (c : ℕ) (s : Text) (ss : List Text) → ss ≢ [] → join c (s ∷ ss) ≡ s ++ (c ∷ join c ss)
unfolding join
join-cons c s [] h = absurd (h refl)
join-cons c s (t ∷ ss) h = refl

join-onto_first : (c x : ℕ) (ss : List Text) → ss ≢ [] → join c (onto_first x ss) ≡ x ∷ join c ss
unfolding join
join-onto_first c x [] h = absurd (h refl)
join-onto_first c x (s ∷ []) h = refl
join-onto_first c x (s ∷ t ∷ ss) h = refl

pub split-ne-nil : (c : ℕ) (s : Text) → split c s ≢ []
unfolding split
split-ne-nil c [] h = cc
split-ne-nil c (x ∷ s) h = ground (arith, split-ne-nil c s)

pub join-split : (c : ℕ) (s : Text) → join c (split c s) ≡ s
unfolding split join
join-split c [] = refl
join-split c (x ∷ s) = elim (Bool-cases (x == c)) [
  | inl same ↦
      rw (same)
        (join-cons c [] (split c s) (split-ne-nil c s) ∙ cc (join-split c s, (==_iff x c).0 same))
  | inr other ↦
      rw (other) (join-onto_first c x (split c s) (split-ne-nil c s) ∙ ap (◌∷◌ x) (join-split c s))
]
