-- ===== src/Tests/Network.antt =====
-- Dialling addresses: src/http/connector.rs.
use speedtest_cli_rust.Base.{
  ℕ, ◌≤◌, false, none, some, List, [], ◌∷◌, ◌≡◌, refl, err, length, arith,
}
use speedtest_cli_rust.Base.Text.{Text, codes}
use speedtest_cli_rust.Http.Dial.{
  SocketAddr, Attempt, dial_serial, Wake, delay_elapsed, primary, fallback, race, enabled, is_over,
  on_wake, starts_fallback,
}
use speedtest_cli_rust.Http.Dial.Serial.{Serves, dial_serial-Serves}
use speedtest_cli_rust.Http.Dial.Race.{Ends, FirstAlone, race-Ends}

abbrev v6 : Text → SocketAddr
v6 n = record { is_ipv4 = false; name = n }

-- Every address refuses after a second.
abbrev refusing : SocketAddr → ℕ → Attempt ℕ
refusing a t = record { after = 1000000000; outcome = err (codes "refused") }

dial_serial-Serves_example :
    Serves refusing
      (v6 (codes "a") ∷ v6 (codes "b") ∷ [])
      30000000000
      (dial_serial refusing (v6 (codes "a") ∷ v6 (codes "b") ∷ []) 0 30000000000)
dial_serial-Serves_example =
    dial_serial-Serves refusing (v6 (codes "a") ∷ v6 (codes "b") ∷ []) 0 30000000000 (omega arith)

-- The delay runs out, and then both families fail, the other one first.
abbrev wakes : List (Wake ℕ)
wakes = delay_elapsed ∷ fallback (err (codes "unreachable")) ∷ primary (err (codes "refused")) ∷ []

raced :
    race (record { primary_err = none; waiting = some (v6 (codes "b") ∷ []); running = none }) wakes
    ≡ some (err (codes "refused"))
unfolding race enabled is_over on_wake starts_fallback
raced = refl

race-Ends_example :
    (length wakes ≤ 3) × FirstAlone wakes × Ends none false wakes (err (codes "refused"))
race-Ends_example = race-Ends (v6 (codes "b") ∷ []) wakes (err (codes "refused")) raced
