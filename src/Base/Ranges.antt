-- ===== src/Base/Ranges.antt =====
-- Tables of code point ranges, and the two searches that the program makes in them: by
-- `binary_search_by` (src/output.rs) and by `partition_point` (src/quote.rs). Both are the linear
-- scan when the table ascends.
use Prim.Native.Nat.{Ordering}
use native.Mathlib.Decide.{dec_lt}
use speedtest_cli_rust.Base.{
  ℕ, zero, suc, ◌≤◌, ◌<◌, Bool, true, false, ◌&&◌, ◌||◌, ◌≡◌, refl, subst, inl, inr, arith, List,
  [], ◌∷◌, ltb, leb, within, if◌then◌else◌, Bool-cases, is_ok, length, get_or, get_elem?, Option,
  none, some,
}
use speedtest_cli_rust.Base.Search.{
  IsSorted, binary_search_by, binary_search_by-hit, binary_search_by-found, Descends,
  partition_point, partition_point_lem,
}

abbrev pub Range : Type 0
Range = ℕ × ℕ

-- The linear scan: some range holds `c`.
unfoldable pub in_ranges : List Range → ℕ → Bool
in_ranges [] c = false
in_ranges ((lo, hi) ∷ t) c = within lo hi c || in_ranges t c

-- Every range is a range, and starts past the end of the one before it.
unfoldable pub ascending : ℕ → List Range → Bool
ascending from [] = true
ascending from ((lo, hi) ∷ t) = leb from lo && leb lo hi && ascending (suc hi) t

abbrev pub entry : List Range → ℕ → Range
entry t i = get_or t i (0, 0)

-- Where a range lies, seen from `c`.
abbrev pub range_order : ℕ → Range → Ordering
range_order c r = if ltb c r.0 then Ordering.gt else if ltb r.1 c then Ordering.lt else Ordering.eq

entry_ge :
    (t : List Range) (from i : ℕ)
    → ascending from t ≡ true
    → i < length t
    → (from ≤ (entry t i).0) × ((entry t i).0 ≤ (entry t i).1)
unfolding ascending
entry_ge [] from i a h = absurd (omega arith)
entry_ge ((lo, hi) ∷ t) from zero a h = ground arith
entry_ge ((lo, hi) ∷ t) from (suc i) a h =
    let r = entry_ge t (suc hi) i (ground arith) (omega arith) in (ground arith, r.1)

entry_lt :
    (t : List Range) (from i j : ℕ)
    → ascending from t ≡ true
    → i < j
    → j < length t
    → (entry t i).1 < (entry t j).0
unfolding ascending
entry_lt [] from i j a p h = absurd (omega arith)
entry_lt ((lo, hi) ∷ t) from i zero a p h = absurd (omega arith)
entry_lt ((lo, hi) ∷ t) from zero (suc j) a p h =
    (entry_ge t (suc hi) j (ground arith) (omega arith)).0
entry_lt ((lo, hi) ∷ t) from (suc i) (suc j) a p h =
    entry_lt t (suc hi) i j (ground arith) (omega arith) (omega arith)

hit-in_ranges :
    (t : List Range) (c i : ℕ)
    → i < length t
    → range_order c (entry t i) ≡ Ordering.eq
    → in_ranges t c ≡ true
unfolding in_ranges
hit-in_ranges [] c i h e = absurd (omega arith)
hit-in_ranges ((lo, hi) ∷ t) c zero h e = ground arith
hit-in_ranges ((lo, hi) ∷ t) c (suc i) h e = ground (arith, hit-in_ranges t c i)

in_ranges-hit :
    (t : List Range) (c : ℕ)
    → in_ranges t c ≡ true
    → (i : ℕ) × (i < length t) × (range_order c (entry t i) ≡ Ordering.eq)
unfolding in_ranges
in_ranges-hit [] c e = cc
in_ranges-hit ((lo, hi) ∷ t) c e = elim (Bool-cases (within lo hi c)) [
  | inl here ↦ (0, omega arith, ground arith)
  | inr there ↦ let (i, h, o) = in_ranges-hit t c (rw there at e) in (suc i, omega arith, o)
]

module _ (t : List Range) (up : ascending 0 t ≡ true) where
  ranges-IsSorted : (c : ℕ) → IsSorted (λ i. range_order c (entry t i)) (length t)
  ranges-IsSorted c = record {
    gt_up = λ i j p q e.
        ground
          (arith, entry_lt t 0 i j up p q, entry_ge t 0 i up (omega arith), entry_ge t 0 j up q);
    lt_down = λ i j p q e.
        ground
          (arith, entry_lt t 0 i j up p q, entry_ge t 0 i up (omega arith), entry_ge t 0 j up q);
  }

  -- `FORMAT.binary_search_by(…).is_ok()`
  pub binary_search_by-in_ranges :
      (c : ℕ) → is_ok (binary_search_by (λ i. range_order c (entry t i)) (length t)) ≡ in_ranges t c
  binary_search_by-in_ranges c = elim (Bool-cases (in_ranges t c)) [
    | inl in' ↦
        let (i, h, o) = in_ranges-hit t c in' in
        rw in' (binary_search_by-hit _ (length t) (ranges-IsSorted c) i h o)
    | inr out ↦
        rw out
          (elim (Bool-cases
            (is_ok (binary_search_by (λ i. range_order c (entry t i)) (length t)))) [
              | inl found ↦
                  let (i, h, o) = binary_search_by-found _ (length t) (ranges-IsSorted c) found in
                  cc (out, hit-in_ranges t c i h o)
              | inr missed ↦ missed
            ])
  ]

  ends_before-Descends : (c : ℕ) → Descends (λ i. ltb (entry t i).1 c) (length t)
  ends_before-Descends c i j p q e = ground (arith, entry_lt t 0 i j up p q, entry_ge t 0 j up q)

get_elem?-get_or : (t : List Range) (i : ℕ) → i < length t → get_elem? t i ≡ some (entry t i)
get_elem?-get_or [] i h = absurd (omega arith)
get_elem?-get_or (r ∷ t) zero h = refl
get_elem?-get_or (r ∷ t) (suc i) h = get_elem?-get_or t i (omega arith)

get_elem?-some :
    (t : List Range) (i : ℕ) {r : Range} → get_elem? t i ≡ some r → (i < length t) × (r ≡ entry t i)
get_elem?-some [] i e = cc
get_elem?-some (r ∷ t) zero e = (omega arith, cc)
get_elem?-some (r ∷ t) (suc i) e = let (h, o) = get_elem?-some t i e in (omega arith, o)

abbrev starts_by : ℕ → Option Range → Bool
starts_by c none = false
starts_by c (some r) = leb r.0 c

-- `let i = table.partition_point(|&(_, hi)| hi < c); table.get(i).is_some_and(|&(lo, _)| lo <= c)`
unfoldable pub partition_lookup : List Range → ℕ → Bool
unfolding partition_point
partition_lookup t c =
    starts_by c (get_elem? t (partition_point (λ i. ltb (entry t i).1 c) (length t)))

module _ (t : List Range) (up : ascending 0 t ≡ true) (c : ℕ) where
  -- Where the second search looks.
  place : ℕ
  place = partition_point (λ i. ltb (entry t i).1 c) (length t)

  place_lem : (i : ℕ) → i < length t → ltb (entry t i).1 c ≡ ltb i place
  unfolding place
  place_lem i h =
      partition_point_lem (λ k. ltb (entry t k).1 c) (length t) (ends_before-Descends t up c) i h

  hit-place : (i : ℕ) → i < length t → range_order c (entry t i) ≡ Ordering.eq → place ≡ i
  hit-place i h o = elim (dec_lt place i) [
    | yes early ↦ absurd (
        ground
          (arith, place_lem i h, place_lem place (omega arith), entry_lt t 0 place i up early h))
    | no late ↦ ground (arith, place_lem i h)
  ]

  place-hit :
      place < length t
      → leb (entry t place).0 c ≡ true
      → range_order c (entry t place) ≡ Ordering.eq
  place-hit h e = ground (arith, place_lem place h)

  lookup_place : starts_by c (get_elem? t place) ≡ in_ranges t c
  lookup_place = elim (Bool-cases (in_ranges t c)) [
    | inl in' ↦
        let (i, h, o) = in_ranges-hit t c in' in
        rw (in', hit-place i h o) (rw (get_elem?-get_or t i h) (ground arith))
    | inr out ↦ rw out (go (get_elem? t place) refl out)
  ]
    where
      go :
          (r : Option Range) → get_elem? t place ≡ r → in_ranges t c ≡ false → starts_by c r ≡ false
      go none e out = refl
      go (some r) e out = elim (Bool-cases (leb r.0 c)) [
        | inl starts ↦
            let (h, same) = get_elem?-some t place e in
            cc (
              out,
              hit-in_ranges t c place h
                  (place-hit h (subst (λ (q : Range). leb q.0 c ≡ true) same starts)),
            )
        | inr later ↦ later
      ]

  pub partition_lookup-in_ranges : partition_lookup t c ≡ in_ranges t c
  unfolding partition_lookup place
  partition_lookup-in_ranges = lookup_place

-- No code point lies in both a range and one of the table.
unfoldable pub apart_from : Range → List Range → Bool
apart_from r [] = true
apart_from r (q ∷ u) = (ltb r.1 q.0 || ltb q.1 r.0) && apart_from r u

unfoldable pub apart : List Range → List Range → Bool
unfolding apart_from
apart [] u = true
apart (r ∷ t) u = apart_from r u && apart t u

apart_from_lem :
    (r : Range) (u : List Range) (c : ℕ)
    → apart_from r u ≡ true
    → within r.0 r.1 c ≡ true
    → in_ranges u c ≡ false
unfolding apart_from in_ranges
apart_from_lem r [] c a h = refl
apart_from_lem r (q ∷ u) c a h = ground (arith, apart_from_lem r u c)

-- Tables that are apart share no code point.
pub apart_lem :
    (t u : List Range) (c : ℕ) → apart t u ≡ true → in_ranges t c ≡ true → in_ranges u c ≡ false
unfolding apart in_ranges
apart_lem [] u c a h = cc
apart_lem (r ∷ t) u c a h = elim (Bool-cases (within r.0 r.1 c)) [
  | inl here ↦ apart_from_lem r u c (and_left (apart_from r u) (apart t u) a) here
  | inr there ↦ apart_lem t u c (and_right (apart_from r u) (apart t u) a) (rw there at h)
]
  where
    and_left : (a b : Bool) → (a && b) ≡ true → a ≡ true
    and_left true b e = refl
    and_left false b e = cc

    and_right : (a b : Bool) → (a && b) ≡ true → b ≡ true
    and_right true b e = e
    and_right false b e = cc

pub in_ranges-head :
    (lo hi c : ℕ) (t : List Range) → within lo hi c ≡ true → in_ranges ((lo, hi) ∷ t) c ≡ true
unfolding in_ranges
in_ranges-head lo hi c t h = rw h refl

pub in_ranges-tail :
    (r : Range) (c : ℕ) (t : List Range) → in_ranges t c ≡ true → in_ranges (r ∷ t) c ≡ true
unfolding in_ranges
in_ranges-tail r c t h = ground arith
