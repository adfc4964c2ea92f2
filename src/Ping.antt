-- ===== src/Ping.antt =====
-- `compute_jitter` and the rounds of `icmp_rtts` of src/ping.rs. The echos are a library's: what
-- each comes to, and how long it takes, is an argument. Instants are in nanoseconds.
pub mod Jitter
pub mod Rounds
use speedtest_cli_rust.Base.{
  ℕ, zero, suc, ◌+◌, ◌*◌, max, Bool, true, false, Option, none, some, List, [], ◌∷◌, ◌^◌, ltb, leb,
  ◌==◌, if◌then◌else◌,
}
use speedtest_cli_rust.Base.Float.{Float}

-- `PING_INTERVAL` and `PING_TIMEOUT`
abbrev pub second : ℕ
second = 10 ^ 9

module _ (float : Float) where
  open float use {F, of_nat, ratio, add, sub, mul, abs, lt}

  -- The update of the average by a new delta.
  abbrev pub smooth : F → F → F
  smooth jitter delta =
      if lt delta jitter
      then add (mul jitter (ratio 7 10)) (mul delta (ratio 3 10))
      else add (mul delta (ratio 2 10)) (mul jitter (ratio 8 10))

  -- The loop of `compute_jitter`, with its index and variables.
  unfoldable pub jitter_loop : ℕ → F → F → List F → F
  jitter_loop idx jitter last [] = jitter
  jitter_loop idx jitter last (p ∷ pings) =
      jitter_loop (idx + 1) (if ltb 1 idx then smooth jitter (abs (sub last p)) else jitter) p pings

  unfoldable pub compute_jitter : List F → F
  unfolding jitter_loop
  compute_jitter pings = jitter_loop 0 (of_nat 0) (of_nat 0) pings

  -- An echo: how long it took, and the round-trip time in milliseconds if a reply came.
  pub record Echo : Type 0 where
    pub took : ℕ
    pub reply : Option F

  -- The echos that went out, by the instants they were sent at, and the replies.
  pub record Echoed : Type 0 where
    pub sent : List ℕ
    pub rtts : List F

  abbrev pub with_reply : Option F → List F → List F
  with_reply none rtts = rtts
  with_reply (some rtt) rtts = rtt ∷ rtts

  -- The loop of `icmp_rtts`: `left` echos are to be sent, the next at `now` or not at all.
  module _ (echo : ℕ → Echo) (deadline : ℕ) where
    unfoldable pub rounds : ℕ → ℕ → ℕ → Echoed
    rounds zero seq now = record { sent = []; rtts = [] }
    rounds (suc left) seq now =
        let rest = rounds left (seq + 1) (
          if left == 0
          then now + (echo seq).took
          else max (now + (echo seq).took) (now + second)) in
        if leb deadline now
        then record { sent = []; rtts = [] }
        else record { sent = now ∷ rest.sent; rtts = with_reply (echo seq).reply rest.rtts }

  -- `icmp_rtts`, whose socket could be opened, from the instant `start`.
  unfoldable pub icmp_rtts : (ℕ → Echo) → ℕ → ℕ → Echoed
  unfolding rounds
  icmp_rtts echo count start = rounds echo (start + max count 1 * second) count 0 start
