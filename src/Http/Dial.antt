-- ===== src/Http/Dial.antt =====
-- Connecting to one of several addresses: `dial_serial` and `dial_with` of src/http/connector.rs.
-- Time is in nanoseconds. The network is a function from an address and the time of the attempt to
-- what comes of it and how long that takes.
pub mod Serial
pub mod Race
use speedtest_cli_rust.Base.{
  ℕ, zero, suc, ◌+◌, ◌-◌, ◌*◌, ◌/◌, ◌≤◌, min, max, Bool, true, false, not, ◌&&◌, ◌||◌, Option, none,
  some, List, [], ◌∷◌, Result, ok, err, leb, if◌then◌else◌, length, keep, is_empty,
}
use speedtest_cli_rust.Base.Text.{Text, codes}

-- `MIN_ATTEMPT`, `FALLBACK_DELAY` and `CONNECT_TIMEOUT`
abbrev pub min_attempt : ℕ
min_attempt = 2000000000

abbrev pub connect_timeout : ℕ
connect_timeout = 30000000000

-- A socket address, of which only the family and the identity matter.
pub record SocketAddr : Type 0 where
  pub is_ipv4 : Bool
  pub name : Text

-- What comes of an attempt, and after how long.
pub record Attempt (S : Type 0) : Type 0 where
  pub after : ℕ
  pub outcome : Result Text S

abbrev pub timed_out : Text
timed_out = codes "connection timed out"

abbrev pub or_timed_out : Option Text → Text
or_timed_out none = timed_out
or_timed_out (some e) = e

-- The time that an attempt gets: a share of what is left, no less than `MIN_ATTEMPT`.
unfoldable pub window : ℕ → ℕ → ℕ
window remaining addresses = min (max (remaining / addresses) min_attempt) remaining

-- How dialling ends: the result, the time, and the addresses that were tried, first to last.
pub record Dialled (S : Type 0) : Type 0 where
  pub result : Result Text S
  pub at : ℕ
  pub tried : List SocketAddr

module _ {S : Type 0} (connect : SocketAddr → ℕ → Attempt S) where
  abbrev pub onto_tried : SocketAddr → Dialled S → Dialled S
  onto_tried a d = record d { tried = a ∷ d.tried }

  abbrev pub answered : ℕ → Result Text S → (Option Text → ℕ → Dialled S) → Dialled S
  answered t (ok s) later = record { result = ok s; at = t; tried = [] }
  answered t (err e) later = later (some e) t

  -- `timeout_at(attempt, connect(addr)).await`: the attempt's own outcome within the time it gets.
  abbrev pub settled : ℕ → ℕ → Attempt S → (Option Text → ℕ → Dialled S) → Dialled S
  settled now given a later =
      if leb a.after given
      then answered (now + a.after) a.outcome later
      else later (some timed_out) (now + given)

  -- `dial_serial` from an address on.
  unfoldable pub serial : ℕ → Option Text → ℕ → List SocketAddr → Dialled S
  serial deadline last_err now [] = record {
    result = err (or_timed_out last_err);
    at = now;
    tried = [];
  }
  serial deadline last_err now (addr ∷ addrs) =
      if leb deadline now
      then record { result = err (or_timed_out last_err); at = now; tried = [] }
      else onto_tried addr (
          settled now (window (deadline - now) (suc (length addrs))) (connect addr now)
            (λ e t. serial deadline e t addrs))

  unfoldable pub dial_serial : List SocketAddr → ℕ → ℕ → Dialled S
  dial_serial addrs now deadline = serial deadline none now addrs

-- `enum Wake`: why the loop racing the two address families woke up.
pub data Wake (S : Type 0) : Type 0 where
  delay_elapsed : Wake S
  primary fallback : Result Text S → Wake S

-- The loop's variables: the first family's error, the addresses of the other family while they
-- wait, and those that its racer dials while it runs.
pub record Racing : Type 0 where
  pub primary_err : Option Text
  pub waiting : Option (List SocketAddr)
  pub running : Option (List SocketAddr)

pub data Turn (S : Type 0) : Type 0 where
  finished : Result Text S → Turn S
  racing : Racing → Turn S

abbrev pub is_none {ℓ} : {A : Type ℓ} → Option A → Bool
is_none none = true
is_none (some _) = false

-- `fallbacks.take()`, and the racer that is set from it.
abbrev pub start_other : Racing → Option (List SocketAddr) → Racing
start_other r none = r
start_other r (some addrs) = record r { waiting = none; running = some addrs }

-- Nothing is left to wait for.
unfoldable pub is_over : Racing → Bool
is_over r = not (is_none r.primary_err) && (is_none r.running && is_none r.waiting)

module _ {S : Type 0} where
  -- `Wake::starts_fallback`
  unfoldable pub starts_fallback : Wake S → Bool
  starts_fallback delay_elapsed = true
  starts_fallback (primary (ok _)) = false
  starts_fallback (primary (err _)) = true
  starts_fallback (fallback _) = false

  -- The guards of the branches of `select!`.
  unfoldable pub enabled : Racing → Wake S → Bool
  enabled r delay_elapsed = not (is_none r.waiting)
  enabled r (primary _) = is_none r.primary_err
  enabled r (fallback _) = not (is_none r.running)

  abbrev pub started : Bool → Racing → Turn S
  started starts r = racing (if starts then start_other r r.waiting else r)

  -- One pass of the loop behind a wake.
  unfoldable pub on_wake : Racing → Wake S → Turn S
  on_wake r delay_elapsed = started (starts_fallback delay_elapsed) r
  on_wake r (primary (ok s)) = finished (ok s)
  on_wake r (fallback (ok s)) = finished (ok s)
  on_wake r (primary (err e)) =
      started (starts_fallback (primary (err e))) (record r { primary_err = some e })
  on_wake r (fallback (err e)) =
      started (starts_fallback (fallback (err e))) (record r { running = none })

  -- What the loop returns after the wakes of a run; `none` where they are not those of a whole run:
  -- one comes that nothing waits for, or the loop still waits behind the last.
  abbrev pub proceed :
      Turn S → List (Wake S) → (Racing → Option (Result Text S)) → Option (Result Text S)
  proceed (finished res) [] next = some res
  proceed (finished res) (_ ∷ _) next = none
  proceed (racing r) ws next = next r

  unfoldable pub race : Racing → List (Wake S) → Option (Result Text S)
  race r [] = if is_over r then some (err (or_timed_out r.primary_err)) else none
  race r (w ∷ ws) =
      let more = proceed (on_wake r w) ws (λ r'. race r' ws) in if enabled r w then more else none

-- The addresses of the first one's family, and the others.
abbrev pub same_family : SocketAddr → SocketAddr → Bool
same_family first a = if first.is_ipv4 then a.is_ipv4 else not a.is_ipv4

-- How `dial_with` connects: with no address, serially, or by a race from its first variables.
pub data Plan : Type 0 where
  no_address : Plan
  one_family : List SocketAddr → Plan
  two_families : List SocketAddr → Racing → Plan

abbrev pub planned : List SocketAddr → List SocketAddr → Plan
planned primaries [] = one_family primaries
planned primaries (a ∷ fallbacks) =
    two_families primaries
      (record { primary_err = none; waiting = some (a ∷ fallbacks); running = none })

unfoldable pub plan : List SocketAddr → Plan
plan [] = no_address
plan (first ∷ addrs) =
    planned (keep (same_family first) (first ∷ addrs))
      (keep (λ a. not (same_family first a)) (first ∷ addrs))
