-- ===== src/Ping/Rounds.antt =====
-- The echos of src/ping.rs go out one a second.
use speedtest_cli_rust.Base.{
  ℕ, zero, suc, ◌+◌, ◌*◌, ◌≤◌, ◌<◌, max, false, List, [], ◌∷◌, leb, ◌==◌, ◌≡◌, refl, ap, ◌∙◌, arith,
  if◌then◌else◌,
}
use speedtest_cli_rust.Base.Float.{Float}
use speedtest_cli_rust.Ping.{second, Echo, Echoed, with_reply, rounds, icmp_rtts}

-- `n` instants a second apart.
unfoldable a_second_apart : ℕ → ℕ → List ℕ
a_second_apart zero now = []
a_second_apart (suc n) now = now ∷ a_second_apart n (now + second)

module _ (float : Float) where
  open float use {F}

  -- The replies to `n` echos from the given one on.
  unfoldable replies : (ℕ → Echo float) → ℕ → ℕ → List F
  replies echo zero seq = []
  replies echo (suc n) seq = with_reply float (echo seq).reply (replies echo n (seq + 1))

  module _ (echo : ℕ → Echo float) (in_time : (seq : ℕ) → (echo seq).took ≤ second) where
    next_at :
        (left seq now : ℕ)
        → (if suc left == 0
            then now + (echo seq).took
            else max (now + (echo seq).took) (now + second))
          ≡ now + second
    next_at left seq now =
        let waits : (suc left == 0) ≡ false = ground arith in rw waits (omega (arith, in_time seq))

    rounds_step :
        (left seq now deadline : ℕ)
        → now < deadline
        → (rest : Echoed float)
        → rounds float echo deadline left (seq + 1) (
            if left == 0 then now + (echo seq).took else max (now + (echo seq).took) (now + second))
          ≡ rest
        → rounds float echo deadline (suc left) seq now
          ≡ record { sent = now ∷ rest.sent; rtts = with_reply float (echo seq).reply rest.rtts }
    unfolding rounds
    rounds_step left seq now deadline h rest e =
        let open_yet : leb deadline now ≡ false = ground arith in rw (open_yet, e) refl

    rounds_lem :
        (left seq now deadline : ℕ)
        → now + left * second ≤ deadline
        → rounds float echo deadline left seq now
          ≡ record { sent = a_second_apart left now; rtts = replies echo left seq }
    unfolding a_second_apart replies
    rounds_lem zero seq now deadline h = unfold rounds in refl
    rounds_lem (suc zero) seq now deadline h =
        rounds_step zero seq now deadline (omega arith) _ (unfold rounds in refl)
    rounds_lem (suc (suc left)) seq now deadline h =
        rounds_step (suc left) seq now deadline (omega arith) _ (
          ap (rounds float echo deadline (suc left) (seq + 1)) (next_at left seq now)
          ∙ rounds_lem (suc left) (seq + 1) (now + second) deadline (omega arith))

    -- Where no echo outlasts its timeout, all of them go out, one a second, and each reply is there, in
    -- the order of the echos.
    icmp_rtts_lem :
        (count start : ℕ)
        → icmp_rtts float echo count start
          ≡ record { sent = a_second_apart count start; rtts = replies echo count 0 }
    unfolding icmp_rtts
    icmp_rtts_lem count start = rounds_lem count 0 start _ (omega arith)
