-- ===== src/Ping/Jitter.antt =====
-- The jitter of src/ping.rs as an average over the deltas of consecutive samples.
use speedtest_cli_rust.Base.{ℕ, ◌+◌, ◌<◌, true, List, [], ◌∷◌, drop, ltb, ◌≡◌, refl, arith}
use speedtest_cli_rust.Base.Float.{Float}
use speedtest_cli_rust.Ping.{smooth, jitter_loop, compute_jitter}

module _ (float : Float) where
  open float use {F, of_nat, sub, abs}

  -- The deltas of consecutive samples.
  unfoldable pub deltas : List F → List F
  deltas [] = []
  deltas (p ∷ []) = []
  deltas (p ∷ q ∷ pings) = abs (sub p q) ∷ deltas (q ∷ pings)

  unfoldable pub smoothed : F → List F → F
  smoothed jitter [] = jitter
  smoothed jitter (d ∷ ds) = smoothed (smooth float jitter d) ds

  jitter_loop-smoothed :
      (idx : ℕ) (jitter last : F) (pings : List F)
      → 1 < idx
      → jitter_loop float idx jitter last pings ≡ smoothed jitter (deltas (last ∷ pings))
  unfolding jitter_loop deltas smoothed
  jitter_loop-smoothed idx jitter last [] h = refl
  jitter_loop-smoothed idx jitter last (p ∷ pings) h =
      let e : ltb 1 idx ≡ true = ground arith in
      rw e (
        jitter_loop-smoothed (idx + 1) (smooth float jitter (abs (sub last p))) p pings
          (omega arith))

  -- The jitter is the smoothed sequence of the deltas between consecutive samples, from nothing, less
  -- the first of them.
  pub compute_jitter-smoothed :
      (pings : List F) → compute_jitter float pings ≡ smoothed (of_nat 0) (drop 1 (deltas pings))
  unfolding compute_jitter deltas
  compute_jitter-smoothed [] = unfold smoothed in refl
  compute_jitter-smoothed (p ∷ []) = unfold smoothed in refl
  compute_jitter-smoothed (p ∷ q ∷ pings) = jitter_loop-smoothed 2 (of_nat 0) q pings (omega arith)
