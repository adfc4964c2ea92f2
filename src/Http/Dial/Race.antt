-- ===== src/Http/Dial/Race.antt =====
-- How the race of the two address families in `dial_with` of src/http/connector.rs can end.
use speedtest_cli_rust.Base.{
  ◌≤◌, Bool, true, false, Option, none, some, List, [], ◌∷◌, Result, ok, err, length, ◌≡◌, refl,
  ◌⊎◌, inl, inr, arith,
}
use speedtest_cli_rust.Base.Text.{Text}
use speedtest_cli_rust.Http.Dial.{
  SocketAddr, Wake, delay_elapsed, primary, fallback, Racing, enabled, is_over, on_wake,
  starts_fallback, race,
}

abbrev racer : Option Text → Option (List SocketAddr) → Option (List SocketAddr) → Racing
racer p w r = record { primary_err = p; waiting = w; running = r }

module _ {S : Type 0} where
  abbrev pub Among : Wake S → List (Wake S) → Type 0
  Among w [] = ⊥
  Among w (v ∷ ws) = (w ≡ v) ⊎ Among w ws

  -- A racer's error, now or later in the run.
  abbrev pub FirstFails : Option Text → Text → List (Wake S) → Type 0
  FirstFails p e ws = (p ≡ some e) ⊎ Among (primary (err e)) ws

  abbrev pub OtherFails : Bool → List (Wake S) → Type 0
  OtherFails f ws = (f ≡ true) ⊎ ((e : Text) × Among (fallback (err e)) ws)

  -- How a run ends that has the first family's error already, or the other's.
  abbrev pub Ends : Option Text → Bool → List (Wake S) → Result Text S → Type 0
  Ends p f ws (ok s) = Among (primary (ok s)) ws ⊎ Among (fallback (ok s)) ws
  Ends p f ws (err e) = FirstFails p e ws × OtherFails f ws

  -- Both have failed.
  both_failed :
      (e : Text) (ws : List (Wake S)) (res : Result Text S)
      → race (racer (some e) none none) ws ≡ some res
      → (length ws ≤ 0) × Ends (some e) true ws res
  unfolding race enabled is_over
  both_failed e [] (ok s) h = cc
  both_failed e [] (err x) h = (omega arith, (inl cc, inl refl))
  both_failed e (delay_elapsed ∷ ws) res h = cc
  both_failed e (primary _ ∷ ws) res h = cc
  both_failed e (fallback _ ∷ ws) res h = cc

  -- A wake in front of a run.
  later :
      (p p' : Option Text) (f f' : Bool) (w : Wake S) (ws : List (Wake S)) (res : Result Text S)
      → ((e : Text) → p' ≡ some e → FirstFails p e (w ∷ ws))
      → (f' ≡ true → OtherFails f (w ∷ ws))
      → Ends p' f' ws res
      → Ends p f (w ∷ ws) res
  later p p' f f' w ws (ok s) a b (inl x) = inl (inr x)
  later p p' f f' w ws (ok s) a b (inr x) = inr (inr x)
  later p p' f f' w ws (err e) a b (x, y) = (first x, other y)
    where
      first : FirstFails p' e ws → FirstFails p e (w ∷ ws)
      first (inl q) = a e q
      first (inr q) = inr (inr q)

      other : OtherFails f' ws → OtherFails f (w ∷ ws)
      other (inl q) = b q
      other (inr (d, q)) = inr (d, inr q)

  -- A stream ends the run.
  first_connects :
      (p : Option Text) (f : Bool) (s : S) (res : Result Text S)
      → some (ok s) ≡ some res
      → Ends p f (primary (ok s) ∷ []) res
  first_connects p f s (ok t) h = inl (inl cc)
  first_connects p f s (err e) h = cc

  other_connects :
      (p : Option Text) (f : Bool) (s : S) (res : Result Text S)
      → some (ok s) ≡ some res
      → Ends p f (fallback (ok s) ∷ []) res
  other_connects p f s (ok t) h = inr (inl cc)
  other_connects p f s (err e) h = cc

  -- The first family has failed, and the other runs.
  other_left :
      (e : Text) (addrs : List SocketAddr) (ws : List (Wake S)) (res : Result Text S)
      → race (racer (some e) none (some addrs)) ws ≡ some res
      → (length ws ≤ 1) × Ends (some e) false ws res
  unfolding race enabled is_over on_wake starts_fallback
  other_left e addrs [] res h = cc
  other_left e addrs (delay_elapsed ∷ ws) res h = cc
  other_left e addrs (primary _ ∷ ws) res h = cc
  other_left e addrs (fallback (ok s) ∷ []) res h =
      (omega arith, other_connects (some e) false s res h)
  other_left e addrs (fallback (ok s) ∷ w ∷ ws) res h = cc
  other_left e addrs (fallback (err x) ∷ ws) res h =
      let (l, d) = both_failed e ws res h in
      (
        omega arith,
        later (some e) (some e) false true (fallback (err x)) ws res (λ y q. inl q)
            (λ q. inr (x, inl refl)) d,
      )

  -- The other family has failed, and the first still runs.
  first_left :
      (ws : List (Wake S)) (res : Result Text S)
      → race (racer none none none) ws ≡ some res
      → (length ws ≤ 1) × Ends none true ws res
  unfolding race enabled is_over on_wake starts_fallback
  first_left [] res h = cc
  first_left (delay_elapsed ∷ ws) res h = cc
  first_left (fallback _ ∷ ws) res h = cc
  first_left (primary (ok s) ∷ []) res h = (omega arith, first_connects none true s res h)
  first_left (primary (ok s) ∷ w ∷ ws) res h = cc
  first_left (primary (err x) ∷ ws) res h =
      let (l, d) = both_failed x ws res h in
      (
        omega arith,
        later none (some x) true true (primary (err x)) ws res (λ y q. inr (inl cc)) (λ q. inl q) d,
      )

  -- Both run.
  both_run :
      (addrs : List SocketAddr) (ws : List (Wake S)) (res : Result Text S)
      → race (racer none none (some addrs)) ws ≡ some res
      → (length ws ≤ 2) × Ends none false ws res
  unfolding race enabled is_over on_wake starts_fallback
  both_run addrs [] res h = cc
  both_run addrs (delay_elapsed ∷ ws) res h = cc
  both_run addrs (primary (ok s) ∷ []) res h = (omega arith, first_connects none false s res h)
  both_run addrs (primary (ok s) ∷ w ∷ ws) res h = cc
  both_run addrs (fallback (ok s) ∷ []) res h = (omega arith, other_connects none false s res h)
  both_run addrs (fallback (ok s) ∷ w ∷ ws) res h = cc
  both_run addrs (primary (err x) ∷ ws) res h =
      let (l, d) = other_left x addrs ws res h in
      (
        omega arith,
        later none (some x) false false (primary (err x)) ws res (λ y q. inr (inl cc)) (λ q. inl q)
            d,
      )
  both_run addrs (fallback (err x) ∷ ws) res h =
      let (l, d) = first_left ws res h in
      (
        omega arith,
        later none none false true (fallback (err x)) ws res (λ y q. cc) (λ q. inr (x, inl refl)) d,
      )

  -- The first wake is not the other family's: it has not been started.
  abbrev pub FirstAlone : List (Wake S) → Type 0
  FirstAlone [] = ⊥
  FirstAlone (w ∷ ws) = (w ≡ delay_elapsed) ⊎ ((r : Result Text S) × (w ≡ primary r))

  -- The loop ends behind at most three wakes, the first of which is not the other family's, since
  -- that is not started before the delay is over or the first family has failed. A stream it
  -- returns is one that a family has connected. An error is the first family's, and is returned
  -- only if the other family has failed as well.
  pub race-Ends :
      (addrs : List SocketAddr) (ws : List (Wake S)) (res : Result Text S)
      → race (record { primary_err = none; waiting = some addrs; running = none }) ws ≡ some res
      → (length ws ≤ 3) × FirstAlone ws × Ends none false ws res
  unfolding race enabled is_over on_wake starts_fallback
  race-Ends addrs [] res h = cc
  race-Ends addrs (fallback _ ∷ ws) res h = cc
  race-Ends addrs (primary (ok s) ∷ []) res h =
      (omega arith, inr (ok s, refl), first_connects none false s res h)
  race-Ends addrs (primary (ok s) ∷ w ∷ ws) res h = cc
  race-Ends addrs (primary (err x) ∷ ws) res h =
      let (l, d) = other_left x addrs ws res h in
      (
        omega arith,
        inr (err x, refl),
        later none (some x) false false (primary (err x)) ws res (λ y q. inr (inl cc)) (λ q. inl q)
            d,
      )
  race-Ends addrs (delay_elapsed ∷ ws) res h =
      let (l, d) = both_run addrs ws res h in
      (
        omega arith,
        inl refl,
        later none none false false delay_elapsed ws res (λ y q. inl q) (λ q. inl q) d,
      )
