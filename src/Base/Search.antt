-- ===== src/Base/Search.antt =====
-- The standard library's binary search over a slice, by index: `at i` is the comparison of the
-- entry at `i`. It halves a window that starts at `base` and holds `size` entries.
use Prim.Native.Nat.{Ordering}
use speedtest_cli_rust.Base.{
  ℕ, zero, suc, ◌+◌, ◌-◌, ◌/◌, ◌≤◌, ◌<◌, Bool, true, false, ◌≡◌, ◌≢◌, refl, ◌⊎◌, inl, inr, arith,
  ltb, ◌==◌, if◌then◌else◌, Bool-cases, Result, ok, err, is_ok, subst,
}
use native.Mathlib.Decide.{dec_lt}

abbrev pub is_gt : Ordering → Bool
is_gt Ordering.lt = false
is_gt Ordering.eq = false
is_gt Ordering.gt = true

-- The `while size > 1` loop, with fuel; it returns the last `base`.
unfoldable pub search_loop : ℕ → (ℕ → Ordering) → ℕ → ℕ → ℕ
search_loop zero at base size = base
search_loop (suc fuel) at base size =
    let half = size / 2 in
    let mid = base + half in
    let rest = search_loop fuel at (if is_gt (at mid) then base else mid) (size - half) in
    if ltb 1 size then rest else base

-- `Ok(base)` on a hit, `Err` with the place to insert at otherwise.
abbrev verdict : ℕ → Ordering → Result ℕ ℕ
verdict base Ordering.eq = ok base
verdict base Ordering.lt = err (base + 1)
verdict base Ordering.gt = err base

-- `binary_search_by` on a slice of `n` entries. A window of `n` entries closes in fewer than `n`
-- rounds.
unfoldable pub binary_search_by : (ℕ → Ordering) → ℕ → Result ℕ ℕ
unfolding search_loop
binary_search_by at n =
    let base = search_loop n at 0 n in if n == 0 then err 0 else verdict base (at base)

-- `partition_point`: the search that takes an entry for too small while the test holds.
abbrev side : Bool → Ordering
side true = Ordering.lt
side false = Ordering.gt

abbrev pub index_of : Result ℕ ℕ → ℕ
index_of (ok i) = i
index_of (err i) = i

unfoldable pub partition_point : (ℕ → Bool) → ℕ → ℕ
unfolding binary_search_by
partition_point holds n = index_of (binary_search_by (λ i. side (holds i)) n)

module _ (at : ℕ → Ordering) (n : ℕ) where
  -- Too small entries first, then hits, then too large ones.
  pub record IsSorted : Type 0 where
    pub gt_up : (i j : ℕ) → i < j → j < n → at i ≡ Ordering.gt → at j ≡ Ordering.gt
    pub lt_down : (i j : ℕ) → i < j → j < n → at j ≡ Ordering.lt → at i ≡ Ordering.lt

  -- What is known of a window: behind it all is too large, and it starts at no too large entry
  -- unless it starts at the front.
  pub record IsWindow (base size : ℕ) : Type 0 where
    pub nonempty : 1 ≤ size
    pub inside : base + size ≤ n
    pub front : (base ≡ 0) ⊎ (at base ≢ Ordering.gt)
    pub behind : (i : ℕ) → base + size ≤ i → i < n → at i ≡ Ordering.gt

  module _ (sorted : IsSorted) where
    narrow :
        (base size : ℕ)
        → IsWindow base size
        → 1 < size
        → IsWindow
            (if is_gt (at (base + size / 2)) then base else base + size / 2)
            (size - size / 2)
    narrow base size w big = go (at (base + size / 2)) refl
      where
        keep_right :
            at (base + size / 2) ≢ Ordering.gt → IsWindow (base + size / 2) (size - size / 2)
        keep_right e = record {
          nonempty = omega arith;
          inside = omega (arith, w.inside);
          front = inr e;
          behind = λ i h k. w.behind i (omega (arith, w.inside)) k;
        }

        keep_left : at (base + size / 2) ≡ Ordering.gt → IsWindow base (size - size / 2)
        keep_left e = record {
          nonempty = omega arith;
          inside = omega (arith, w.inside);
          front = w.front;
          behind = λ i h k. elim (dec_lt (base + size / 2) i) [
            | yes past ↦ sorted.gt_up (base + size / 2) i past k e
            | no near ↦ subst (λ j. at j ≡ Ordering.gt) (omega arith) e
          ];
        }

        go :
            (o : Ordering)
            → at (base + size / 2) ≡ o
            → IsWindow (if is_gt o then base else base + size / 2) (size - size / 2)
        go Ordering.gt e = keep_left e
        go Ordering.lt e = keep_right (λ x. cc)
        go Ordering.eq e = keep_right (λ x. cc)

    -- The loop ends on a window of one entry.
    search_loop-IsWindow :
        (fuel base size : ℕ)
        → size ≤ suc fuel
        → IsWindow base size
        → IsWindow (search_loop fuel at base size) 1
    unfolding search_loop
    search_loop-IsWindow zero base size f w =
        let one : size ≡ 1 = omega (arith, w.nonempty) in subst (IsWindow base) one w
    search_loop-IsWindow (suc fuel) base size f w = elim (Bool-cases (ltb 1 size)) [
      | inl more ↦ rw more (
          search_loop-IsWindow fuel _ (size - size / 2) (ground arith)
            (narrow base size w (ground arith)))
      | inr last ↦
          let one : size ≡ 1 = ground (arith, w.nonempty) in rw last (subst (IsWindow base) one w)
    ]

    whole : 0 < n → IsWindow 0 n
    whole h = record {
      nonempty = h;
      inside = omega arith;
      front = inl refl;
      behind = λ i p q. absurd (omega arith);
    }

    abbrev last : ℕ
    last = search_loop n at 0 n

    pub last-IsWindow : 0 < n → IsWindow last 1
    last-IsWindow h = search_loop-IsWindow n 0 n (omega arith) (whole h)

    -- A hit anywhere is a hit where the loop stops.
    last_entry : (i : ℕ) → i < n → at i ≡ Ordering.eq → at last ≡ Ordering.eq
    last_entry i h e = go (at last) refl
      where
        w : IsWindow last 1
        w = last-IsWindow (omega arith)

        not_behind : i ≤ last
        not_behind = elim (dec_lt last i) [
          | yes p ↦ cc (w.behind i (omega arith) h)
          | no p ↦ omega arith
        ]

        go : (o : Ordering) → at last ≡ o → at last ≡ Ordering.eq
        go Ordering.eq x = x
        go Ordering.lt x = elim (dec_lt i last) [
          | yes p ↦ cc (sorted.lt_down i last p (omega (arith, w.inside)) x)
          | no p ↦ subst (λ j. at j ≡ Ordering.eq) (omega (arith, not_behind)) e
        ]
        go Ordering.gt x = elim (dec_lt i last) [
          | yes p ↦ elim (w.front) [ inl z ↦ absurd (omega arith) | inr g ↦ absurd (g x) ]
          | no p ↦ subst (λ j. at j ≡ Ordering.eq) (omega (arith, not_behind)) e
        ]

    verdict-eq : (b : ℕ) (o : Ordering) → o ≡ Ordering.eq → is_ok (verdict b o) ≡ true
    verdict-eq b Ordering.eq e = refl
    verdict-eq b Ordering.lt e = cc
    verdict-eq b Ordering.gt e = cc

    eq-verdict : (b : ℕ) (o : Ordering) → is_ok (verdict b o) ≡ true → o ≡ Ordering.eq
    eq-verdict b Ordering.eq e = refl
    eq-verdict b Ordering.lt e = cc
    eq-verdict b Ordering.gt e = cc

    -- The search hits exactly when some entry is a hit.
    pub binary_search_by-hit :
        (i : ℕ) → i < n → at i ≡ Ordering.eq → is_ok (binary_search_by at n) ≡ true
    unfolding binary_search_by
    binary_search_by-hit i h e = elim (Bool-cases (n == 0)) [
      | inl z ↦ absurd (ground arith)
      | inr p ↦ rw p (verdict-eq last (at last) (last_entry i h e))
    ]

    pub binary_search_by-found :
        is_ok (binary_search_by at n) ≡ true → (i : ℕ) × (i < n) × (at i ≡ Ordering.eq)
    unfolding binary_search_by
    binary_search_by-found e = elim (Bool-cases (n == 0)) [
      | inl z ↦ cc (rw z at e)
      | inr p ↦ (
        last,
        omega (arith, (last-IsWindow (ground arith)).inside),
        eq-verdict last (at last) (rw p at e),
      )
    ]

-- A test that holds up to some index and fails from there on.
abbrev pub Descends : (ℕ → Bool) → ℕ → Type 0
Descends holds n = (i j : ℕ) → i < j → j < n → holds j ≡ true → holds i ≡ true

module _ (holds : ℕ → Bool) (n : ℕ) (down : Descends holds n) where
  side-gt : (b : Bool) → side b ≡ Ordering.gt → b ≡ false
  side-gt true e = cc
  side-gt false e = refl

  side-lt : (b : Bool) → side b ≡ Ordering.lt → b ≡ true
  side-lt true e = refl
  side-lt false e = cc

  sides-IsSorted : IsSorted (λ i. side (holds i)) n
  sides-IsSorted = record {
    gt_up = λ i j p q e. elim (Bool-cases (holds j)) [
      | inl t ↦ cc (rw (down i j p q t) at e)
      | inr f ↦ rw f refl
    ];
    lt_down = λ i j p q e. rw (down i j p q (side-lt (holds j) e)) refl;
  }

  split_true :
      (base i : ℕ)
      → IsWindow (λ k. side (holds k)) n base 1
      → i < n
      → holds base ≡ true
      → holds i ≡ ltb i (base + 1)
  split_true base i w h t = elim (dec_lt base i) [
    | yes past ↦ rw (side-gt (holds i) (w.behind i (omega arith) h)) (ground arith)
    | no near ↦ elim (dec_lt i base) [
      | yes before ↦ rw (down i base before (omega (arith, w.inside)) t) (ground arith)
      | no here ↦
          let same : base ≡ i = omega arith in
          rw (subst (λ k. holds k ≡ true) same t) (ground arith)
    ]
  ]

  split_false :
      (base i : ℕ)
      → IsWindow (λ k. side (holds k)) n base 1
      → i < n
      → holds base ≡ false
      → holds i ≡ ltb i base
  split_false base i w h f = elim (w.front) [
    | inr g ↦ absurd (g (rw f refl))
    | inl z ↦ elim (dec_lt base i) [
      | yes past ↦ rw (side-gt (holds i) (w.behind i (omega arith) h)) (ground arith)
      | no near ↦
          let same : base ≡ i = omega arith in
          rw (subst (λ k. holds k ≡ false) same f) (ground arith)
    ]
  ]

  -- The partition point is where the test stops holding.
  pub partition_point_lem : (i : ℕ) → i < n → holds i ≡ ltb i (partition_point holds n)
  unfolding partition_point binary_search_by
  partition_point_lem i h = elim (Bool-cases (n == 0)) [
    | inl z ↦ absurd (ground arith)
    | inr p ↦ rw p (elim (Bool-cases (holds stop)) [
      | inl t ↦ rw t (split_true stop i window h t)
      | inr f ↦ rw f (split_false stop i window h f)
    ])
  ]
    where
      stop : ℕ
      stop = search_loop n (λ k. side (holds k)) 0 n

      window : IsWindow (λ k. side (holds k)) n stop 1
      window = last-IsWindow (λ k. side (holds k)) n sides-IsSorted (omega arith)
