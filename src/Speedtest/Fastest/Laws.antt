-- ===== src/Speedtest/Fastest/Laws.antt =====
-- The fastest server of src/speedtest.rs.
use speedtest_cli_rust.Base.{
  ℕ, Bool, true, false, Option, none, some, List, [], ◌∷◌, if◌then◌else◌, keep, All, subst, ◌≡◌,
  ◌⊎◌, inl, inr, refl, sym, ap, Bool-cases,
}
use speedtest_cli_rust.Base.Float.{Float}
use speedtest_cli_rust.Speedtest.Fastest.{least_from, min_by, is_positive, or_first, fastest}

module _ (float : Float) where
  open float use {F, of_nat, lt, total_le}

  -- A member, by its place.
  pub data Among (p : ℕ × F) : List (ℕ × F) → Type 0 where
    here : {ps : List (ℕ × F)} → Among p (p ∷ ps)
    later : {q : ℕ × F} {ps : List (ℕ × F)} → Among p ps → Among p (q ∷ ps)

  abbrev pub NoFaster : F → ℕ × F → Type 0
  NoFaster best p = total_le best p.1 ≡ true

  -- The order that `total_cmp` is documented to be.
  pub record IsTotalOrder : Type 0 where
    pub reflexive : (a : F) → total_le a a ≡ true
    pub transitive : (a b c : F) → total_le a b ≡ true → total_le b c ≡ true → total_le a c ≡ true
    pub total : (a b : F) → total_le a b ≡ false → total_le b a ≡ true

  -- One step of the fold, by what the comparison says.
  least_from_step :
      (p q : ℕ × F) (ps : List (ℕ × F)) (le : Bool)
      → total_le p.1 q.1 ≡ le
      → least_from float p (q ∷ ps) ≡ least_from float (if le then p else q) ps
  unfolding least_from
  least_from_step (i, a) (j, b) ps le e =
      ap (λ t. least_from float (if t then (i, a) else (j, b)) ps) e

  abbrev IsLeast : ℕ × F → List (ℕ × F) → ℕ × F → Type 0
  IsLeast p ps best = (total_le best.1 p.1 ≡ true) × All (NoFaster best.1) ps

  module _ (order : IsTotalOrder) where
    least_from-IsLeast : (p : ℕ × F) (ps : List (ℕ × F)) → IsLeast p ps (least_from float p ps)
    least_from-IsLeast p [] = (unfold least_from in order.reflexive p.1, tt)
    least_from-IsLeast p (q ∷ ps) = elim (Bool-cases (total_le p.1 q.1)) [
      | inl e ↦
          let (first, rest) = least_from-IsLeast p ps in
          subst (IsLeast p (q ∷ ps)) (sym (least_from_step p q ps true e))
            (first, (order.transitive _ p.1 q.1 first e, rest))
      | inr e ↦
          let (first, rest) = least_from-IsLeast q ps in
          subst (IsLeast p (q ∷ ps)) (sym (least_from_step p q ps false e))
            (order.transitive _ q.1 p.1 first (order.total p.1 q.1 e), (first, rest))
    ]

  widen : (r p q : ℕ × F) {l : List (ℕ × F)} → Among r (p ∷ l) → Among r (p ∷ q ∷ l)
  widen r p q here = here
  widen r p q (later m) = later (later m)

  least_from-Among : (p : ℕ × F) (ps : List (ℕ × F)) → Among (least_from float p ps) (p ∷ ps)
  least_from-Among p [] = unfold least_from in here
  least_from-Among p (q ∷ ps) = elim (Bool-cases (total_le p.1 q.1)) [
    | inl e ↦
        subst (λ r. Among r (p ∷ q ∷ ps)) (sym (least_from_step p q ps true e))
          (widen _ p q (least_from-Among p ps))
    | inr e ↦
        subst (λ r. Among r (p ∷ q ∷ ps)) (sym (least_from_step p q ps false e))
          (later (least_from-Among q ps))
  ]

  Among-cons :
      (p q : ℕ × F) {qs : List (ℕ × F)}
      → Among p (q ∷ qs)
      → is_positive float q ≡ true
      → (is_positive float p ≡ true) ⊎ Among p qs
  Among-cons p q here e = inl e
  Among-cons p q (later m) e = inr m

  kept_positive :
      (p : ℕ × F) (ps : List (ℕ × F))
      → Among p (keep (is_positive float) ps)
      → is_positive float p ≡ true
  kept_positive p [] m = elim m [ ]
  kept_positive p (q ∷ ps) m = go (is_positive float q) refl m (kept_positive p ps)
    where
      go :
          (t : Bool)
          → is_positive float q ≡ t
          → Among p (if t then q ∷ keep (is_positive float) ps else keep (is_positive float) ps)
          → (Among p (keep (is_positive float) ps) → is_positive float p ≡ true)
          → is_positive float p ≡ true
      go true e m ih = elim (Among-cons p q m e) [ inl k ↦ k | inr k ↦ ih k ]
      go false e m ih = ih m

  head_or_later :
      (p q : ℕ × F) (ps : List (ℕ × F)) {qs : List (ℕ × F)}
      → Among p (q ∷ qs)
      → (Among p qs → Among p ps)
      → Among p (q ∷ ps)
  head_or_later p q ps here f = here
  head_or_later p q ps (later k) f = later (f k)

  kept-Among : (p : ℕ × F) (ps : List (ℕ × F)) → Among p (keep (is_positive float) ps) → Among p ps
  kept-Among p [] m = elim m [ ]
  kept-Among p (q ∷ ps) m = go (is_positive float q) m (kept-Among p ps)
    where
      go :
          (t : Bool)
          → Among p (if t then q ∷ keep (is_positive float) ps else keep (is_positive float) ps)
          → (Among p (keep (is_positive float) ps) → Among p ps)
          → Among p (q ∷ ps)
      go true m ih = head_or_later p q ps m ih
      go false m ih = later (ih m)

  -- Each positive ping is no faster than `best`.
  abbrev pub IsFastest : F → List (ℕ × F) → Type 0
  IsFastest best ps = All (λ p. (is_positive float p ≡ false) ⊎ NoFaster best p) ps

  All-keep :
      (best : F) (ps : List (ℕ × F))
      → All (NoFaster best) (keep (is_positive float) ps)
      → IsFastest best ps
  All-keep best [] h = tt
  All-keep best (q ∷ ps) h = go (is_positive float q) refl h (All-keep best ps)
    where
      go :
          (t : Bool)
          → is_positive float q ≡ t
          → All
              (NoFaster best)
              (if t then q ∷ keep (is_positive float) ps else keep (is_positive float) ps)
          → (All (NoFaster best) (keep (is_positive float) ps) → IsFastest best ps)
          → IsFastest best (q ∷ ps)
      go true e h ih = (inr h.0, ih h.1)
      go false e h ih = (inl e, ih h)

  -- What the choice of a server comes to.
  abbrev pub Chooses : List (ℕ × F) → Option (ℕ × F) → Type 0
  Chooses ps none = ps ≡ []
  Chooses ps (some best) =
      Among best ps
      × (((is_positive float best ≡ true) × IsFastest best.1 ps)
          ⊎ All (λ p. is_positive float p ≡ false) ps)

  none_positive :
      (ps : List (ℕ × F))
      → keep (is_positive float) ps ≡ []
      → All (λ p. is_positive float p ≡ false) ps
  none_positive [] e = tt
  none_positive (q ∷ ps) e = go (is_positive float q) refl e (none_positive ps)
    where
      go :
          (t : Bool)
          → is_positive float q ≡ t
          → (if t then q ∷ keep (is_positive float) ps else keep (is_positive float) ps) ≡ []
          → (keep (is_positive float) ps ≡ [] → All (λ p. is_positive float p ≡ false) ps)
          → All (λ p. is_positive float p ≡ false) (q ∷ ps)
      go true p e ih = cc
      go false p e ih = (p, ih e)

  Among_All : (P : ℕ × F → Type 0) (p : ℕ × F) (ps : List (ℕ × F)) → Among p ps → All P ps → P p
  Among_All P p [] m h = elim m [ ]
  Among_All P p (_ ∷ ps) here h = h.0
  Among_All P p (q ∷ ps) (later m) h = Among_All P p ps m h.1

  -- What holds of all pings holds of the one that is chosen.
  pub fastest-All :
      (P : ℕ × F → Type 0) (ps : List (ℕ × F)) {best : ℕ × F}
      → All P ps
      → fastest float ps ≡ some best
      → P best
  unfolding fastest
  fastest-All P ps {best} all chosen = go (keep (is_positive float) ps) refl ps refl chosen
    where
      go :
          (kept : List (ℕ × F))
          → keep (is_positive float) ps ≡ kept
          → (qs : List (ℕ × F)) → qs ≡ ps
          → or_first float qs (min_by float kept) ≡ some best
          → P best
      go [] e [] k h = cc
      go [] e (q ∷ qs) k h =
          let q_holds : P q = (subst (All P) (sym k) all).0 in
          let same : q ≡ best = cc in subst P same q_holds
      go (first ∷ kept) e qs k h =
          let least = least_from float first kept in
          let m = subst (Among least) (sym e) (least_from-Among first kept) in
          let same : least ≡ best = cc in
          subst P same (Among_All P least ps (kept-Among least ps m) all)

  -- By a total order of the floats, the server chosen is one that answered. Its ping is positive and no
  -- positive ping is below it; or no ping is positive. None is chosen only where none answered.
  pub fastest-Chooses : IsTotalOrder → (ps : List (ℕ × F)) → Chooses ps (fastest float ps)
  unfolding fastest
  fastest-Chooses order ps = go (keep (is_positive float) ps) refl ps refl
    where
      go :
          (kept : List (ℕ × F))
          → keep (is_positive float) ps ≡ kept
          → (qs : List (ℕ × F)) → qs ≡ ps
          → Chooses ps (or_first float qs (min_by float kept))
      go [] e [] k = sym k
      go [] e (q ∷ qs) k = (subst (Among q) k here, inr (none_positive ps e))
      go (best ∷ kept) e qs k =
          let least = least_from float best kept in
          let m = subst (Among least) (sym e) (least_from-Among best kept) in
          (
            kept-Among least ps m,
            inl (
              kept_positive least ps m,
              All-keep least.1 ps
                  (subst (All (NoFaster least.1)) (sym e) (least_from-IsLeast order best kept)),
            ),
          )
