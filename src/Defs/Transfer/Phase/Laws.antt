-- ===== src/Defs/Transfer/Phase/Laws.antt =====
-- How many streams a phase of src/defs/server.rs keeps, when it ends, and what it has counted.
use speedtest_cli_rust.Base.{
  ℕ, zero, suc, ◌+◌, ◌≤◌, ◌<◌, min, Bool, Option, none, some, List, [], ◌∷◌, ◌==◌, if◌then◌else◌,
  ◌≡◌, ◌≢◌, refl, sym, ap, ◌∙◌, inl, inr, arith, Bool-cases,
}
use speedtest_cli_rust.Defs.Counter.{
  u64_mod, WriteMeter, BytesCounter, set_wire, total, set_mebi, set_upload_size, start_clock,
}
use speedtest_cli_rust.Defs.Counter.Ceiling
use speedtest_cli_rust.Defs.Counter.Ceiling.{Event, step, taken, wrote, run_counts, total-wire}
use speedtest_cli_rust.Defs.Transfer.{StreamEnd}
use speedtest_cli_rust.Defs.Transfer.Phase.{
  Streams, spawn, ramp_up, Wake, deadline, joined, moved, is_replaced, on_join, shutdown,
  phase_loop, no_streams, phase, download_counter, upload_counter,
}

-- Nothing but bytes that move.
abbrev OnlyMoves : List Wake → Type 0
OnlyMoves [] = Unit
OnlyMoves (moved _ ∷ ws) = OnlyMoves ws
OnlyMoves (_ ∷ _) = ⊥

-- The deadline comes once, and behind it nothing but the bytes that move until the streams are stopped.
abbrev pub IsUpToDeadline : List Wake → Type 0
IsUpToDeadline [] = ⊥
IsUpToDeadline (deadline ∷ ws) = OnlyMoves ws
IsUpToDeadline (joined _ ∷ ws) = IsUpToDeadline ws
IsUpToDeadline (moved _ ∷ ws) = IsUpToDeadline ws

-- The streams that ended and were replaced, those that were not, and the bytes that moved.
unfoldable pub replaced : List Wake → ℕ
replaced [] = 0
replaced (deadline ∷ ws) = replaced ws
replaced (joined res ∷ ws) = (if is_replaced res then 1 else 0) + replaced ws
replaced (moved _ ∷ ws) = replaced ws

unfoldable pub lost : List Wake → ℕ
lost [] = 0
lost (deadline ∷ ws) = lost ws
lost (joined res ∷ ws) = (if is_replaced res then 0 else 1) + lost ws
lost (moved _ ∷ ws) = lost ws

unfoldable pub moves : List Wake → List Event
moves [] = []
moves (deadline ∷ ws) = moves ws
moves (joined _ ∷ ws) = moves ws
moves (moved e ∷ ws) = e ∷ moves ws

ramp_up_lem :
    (n : ℕ) (s : Streams)
    → (ramp_up n s).tasks ≡ n + s.tasks
      × ((ramp_up n s).spawned ≡ n + s.spawned)
      × ((ramp_up n s).bytes ≡ s.bytes)
unfolding ramp_up spawn
ramp_up_lem zero s = (omega arith, omega arith, refl)
ramp_up_lem (suc n) s = let (t, k, b) = ramp_up_lem n (spawn s) in (omega arith, omega arith, b)

-- What a phase has done between two wakes of its loop.
record Keeps (s : Streams) (ws : List Wake) (end : Streams) : Type 0 where
  up_to : IsUpToDeadline ws
  kept : end.tasks + lost ws ≡ s.tasks
  started : end.spawned ≡ s.spawned + replaced ws
  counted : end.bytes ≡ Ceiling.run s.bytes (moves ws)

on_join_lem :
    (res : Option StreamEnd) (s : Streams)
    → s.tasks ≢ 0
    → ((on_join res s).tasks + (if is_replaced res then 0 else 1) ≡ s.tasks)
      × ((on_join res s).spawned ≡ s.spawned + (if is_replaced res then 1 else 0))
      × ((on_join res s).bytes ≡ s.bytes)
unfolding on_join spawn
on_join_lem res s h = elim (Bool-cases (is_replaced res)) [
  | inl e ↦ rw e (omega arith, omega arith, refl)
  | inr e ↦ rw e (omega arith, omega arith, refl)
]

join_guard :
    (res : Option StreamEnd) (ws : List Wake) (s : Streams) {end : Streams}
    → phase_loop s (joined res ∷ ws) ≡ some end
    → (s.tasks ≢ 0) × (phase_loop (on_join res s) ws ≡ some end)
unfolding phase_loop
join_guard res ws s h = (ground arith, ground arith)

shutdown-Keeps :
    (ws : List Wake) (s : Streams) {end : Streams}
    → shutdown s ws ≡ some end
    → Keeps s (deadline ∷ ws) end
unfolding shutdown lost replaced moves Ceiling.run
shutdown-Keeps [] s {end} h =
    let same : s ≡ end = cc in
    rw (sym same) (record { up_to = tt; kept = omega arith; started = omega arith; counted = refl })
shutdown-Keeps (moved e ∷ ws) s h =
    let k = shutdown-Keeps ws (record s { bytes = step s.bytes e }) h in
    record { up_to = k.up_to; kept = k.kept; started = k.started; counted = k.counted }
shutdown-Keeps (deadline ∷ _) s h = cc
shutdown-Keeps (joined _ ∷ _) s h = cc

shutdown-goes_on :
    (ws : List Wake) (s : Streams) → OnlyMoves ws → (end : Streams) × (shutdown s ws ≡ some end)
unfolding shutdown
shutdown-goes_on [] s u = (s, refl)
shutdown-goes_on (moved e ∷ ws) s u = shutdown-goes_on ws (record s { bytes = step s.bytes e }) u
shutdown-goes_on (deadline ∷ _) s u = elim u [ ]
shutdown-goes_on (joined _ ∷ _) s u = elim u [ ]

phase_loop-Keeps :
    (ws : List Wake) (s : Streams) {end : Streams} → phase_loop s ws ≡ some end → Keeps s ws end
unfolding phase_loop lost replaced moves Ceiling.run
phase_loop-Keeps [] s h = cc
phase_loop-Keeps (deadline ∷ ws) s h = shutdown-Keeps ws s h
phase_loop-Keeps (moved e ∷ ws) s h =
    let k = phase_loop-Keeps ws (record s { bytes = step s.bytes e }) h in
    record { up_to = k.up_to; kept = k.kept; started = k.started; counted = k.counted }
phase_loop-Keeps (joined res ∷ ws) s {end} h =
    let (running, rest) = join_guard res ws s h in
    let (t, n, b) = on_join_lem res s running in
    let k = phase_loop-Keeps ws (on_join res s) rest in
    record {
      up_to = k.up_to;
      kept = omega (arith, k.kept);
      started = omega (arith, k.started);
      counted = k.counted ∙ ap (λ p. Ceiling.run p (moves ws)) b;
    }

-- While no more streams are lost than there are, the loop goes on to the deadline.
phase_loop-goes_on :
    (ws : List Wake) (s : Streams)
    → IsUpToDeadline ws
    → lost ws < s.tasks
    → (end : Streams) × (phase_loop s ws ≡ some end)
unfolding phase_loop lost
phase_loop-goes_on [] s u h = elim u [ ]
phase_loop-goes_on (deadline ∷ ws) s u h = shutdown-goes_on ws s u
phase_loop-goes_on (moved e ∷ ws) s u h =
    phase_loop-goes_on ws (record s { bytes = step s.bytes e }) u h
phase_loop-goes_on (joined res ∷ ws) s u h =
    let running : s.tasks ≢ 0 = omega arith in
    let (t, n, b) = on_join_lem res s running in
    let (end, e) = phase_loop-goes_on ws (on_join res s) u (omega arith) in
    (end, opened s.tasks running e)
  where
    opened :
        (n : ℕ) {r : Option Streams} {end : Streams}
        → n ≢ 0
        → r ≡ some end
        → (if n == 0 then none else r) ≡ some end
    opened n h e = ground arith

-- Only the deadline ends a phase, and behind it bytes move until the streams are stopped. At its end as many streams go on as were asked for, less those
-- that were not replaced; each other that ended was replaced by one; and the counter has what the
-- streams and their connections moved, in that order.
pub phase_lem :
    (requests : ℕ) (c : BytesCounter) (m : WriteMeter) (ws : List Wake) {end : Streams}
    → phase requests c m ws ≡ some end
    → IsUpToDeadline ws
      × (end.tasks + lost ws ≡ requests)
      × (end.spawned ≡ requests + replaced ws)
      × (end.bytes ≡ Ceiling.run (record { counter = c; meter = m }) (moves ws))
unfolding phase
phase_lem requests c m ws {end} h =
    let (t, n, b) = ramp_up_lem requests (no_streams c m) in
    let k = phase_loop-Keeps ws (ramp_up requests (no_streams c m)) h in
    (
      k.up_to,
      omega (arith, k.kept),
      omega (arith, k.started),
      k.counted ∙ ap (λ p. Ceiling.run p (moves ws)) b,
    )

-- A phase has its end where the wakes are those of a whole one and not every stream is lost.
phase-Ends :
    (requests : ℕ) (c : BytesCounter) (m : WriteMeter) (ws : List Wake)
    → IsUpToDeadline ws
    → lost ws < requests
    → (end : Streams) × (phase requests c m ws ≡ some end) × (1 ≤ end.tasks)
unfolding phase
phase-Ends requests c m ws u h =
    let (t, n, b) = ramp_up_lem requests (no_streams c m) in
    let (end, e) = phase_loop-goes_on ws (ramp_up requests (no_streams c m)) u (omega arith) in
    let k = phase_loop-Keeps ws (ramp_up requests (no_streams c m)) e in
    (end, e, omega (arith, k.kept))

total-none : (c : BytesCounter) (m : WriteMeter) → c.wire ≡ none → total c m ≡ c.total
unfolding total
total-none c m e = rw e refl

module _ (m : WriteMeter) (es : List Event) (h : taken es < u64_mod)
    (k : m.written + wrote es < u64_mod) where
  -- The total of a download is what its streams took.
  pub download_counter-total :
      (mebi : Bool) (now : ℕ)
      → let end = Ceiling.run (record { counter = download_counter mebi now; meter = m }) es in
        total end.counter end.meter ≡ taken es
  unfolding download_counter set_mebi start_clock
  download_counter-total mebi now =
      let (a, b, w) =
        run_counts es (record { counter = download_counter mebi now; meter = m }) (omega arith)
          (omega arith) in
      total-none _ _ w ∙ omega (arith, a)

  -- The total of an upload is at most what its connections wrote.
  pub upload_counter-total :
      (mebi : Bool) (size now : ℕ)
      → let end = Ceiling.run (record { counter = upload_counter mebi size m now; meter = m }) es in
        total end.counter end.meter ≡ min (taken es) (wrote es)
  unfolding upload_counter set_mebi start_clock set_wire set_upload_size
  upload_counter-total mebi size now =
      let (a, b, w) =
        run_counts es (record { counter = upload_counter mebi size m now; meter = m }) (omega arith)
          (omega arith) in
      total-wire _ _ m.written w ∙ omega (arith, a, b)
