-- ===== src/Defs/Transfer/Phase.antt =====
-- The download and upload phases of src/defs/server.rs: the streams that are started, the wakes of
-- the loop that replaces them until the deadline, and what the phase reports.
pub mod Laws
use speedtest_cli_rust.Base.{
  ℕ, zero, suc, ◌+◌, ◌-◌, Bool, true, false, Option, none, some, List, [], ◌∷◌, ◌++◌, ◌==◌,
  if◌then◌else◌, Result, ok, err,
}
use speedtest_cli_rust.Base.Text.{Text, codes}
use speedtest_cli_rust.Base.Float.{Float}
use speedtest_cli_rust.Defs.Counter.{
  WriteMeter, BytesCounter, new, set_mebi, set_upload_size, set_wire, start_clock, total,
}
use speedtest_cli_rust.Defs.Counter
use speedtest_cli_rust.Defs.Counter.Average.{avg_mbps, avg_humanize}
use speedtest_cli_rust.Defs.Counter.Ceiling
use speedtest_cli_rust.Defs.Counter.Ceiling.{Event, step}
use speedtest_cli_rust.Defs.Transfer.{StreamEnd, replaceable}

-- The `JoinSet` by the number of its streams, all that were ever spawned, and the counter with the
-- meter that the streams and their connections change.
pub record Streams : Type 0 where
  pub tasks : ℕ
  pub spawned : ℕ
  pub bytes : Ceiling.Phase

unfoldable pub spawn : Streams → Streams
spawn s = record s { tasks = suc s.tasks; spawned = suc s.spawned }

-- `for _ in 0..opts.requests`
unfoldable pub ramp_up : ℕ → Streams → Streams
ramp_up zero s = s
ramp_up (suc n) s = ramp_up n (spawn s)

-- What wakes the loop, or happens while it and the shutdown behind it wait: the deadline, a stream
-- that has ended or panicked, and bytes that move.
pub data Wake : Type 0 where
  deadline : Wake
  joined : Option StreamEnd → Wake
  moved : Event → Wake

-- `matches!(res, Ok(end) if end.replaceable())`
unfoldable pub is_replaced : Option StreamEnd → Bool
is_replaced none = false
is_replaced (some e) = replaceable e

unfoldable pub on_join : Option StreamEnd → Streams → Streams
on_join res s =
    let left : Streams = record s { tasks = s.tasks - 1 } in
    if is_replaced res then spawn left else left

-- `tasks.shutdown()`, until which bytes still move; nobody joins a stream any more.
unfoldable pub shutdown : Streams → List Wake → Option Streams
shutdown s [] = some s
shutdown s (moved e ∷ ws) = shutdown (record s { bytes = step s.bytes e }) ws
shutdown s (_ ∷ _) = none

-- The streams at the end of the loop, and of the shutdown behind it; `none` where the wakes are not
-- those of a whole phase: a stream ends although none is left, there is no deadline, or the loop is
-- woken behind it.
unfoldable pub phase_loop : Streams → List Wake → Option Streams
phase_loop s [] = none
phase_loop s (deadline ∷ ws) = shutdown s ws
phase_loop s (moved e ∷ ws) = phase_loop (record s { bytes = step s.bytes e }) ws
phase_loop s (joined res ∷ ws) =
    let rest = phase_loop (on_join res s) ws in if s.tasks == 0 then none else rest

abbrev pub no_streams : BytesCounter → WriteMeter → Streams
no_streams c m = record { tasks = 0; spawned = 0; bytes = record { counter = c; meter = m } }

unfoldable pub phase : ℕ → BytesCounter → WriteMeter → List Wake → Option Streams
unfolding ramp_up phase_loop
phase requests c m ws = phase_loop (ramp_up requests (no_streams c m)) ws

-- The counter of a download, which starts at `now`, and of an upload, which reads the meter first.
unfoldable pub download_counter : Bool → ℕ → BytesCounter
download_counter mebi now = start_clock (set_mebi new mebi) now

unfoldable pub upload_counter : Bool → ℕ → WriteMeter → ℕ → BytesCounter
upload_counter mebi upload_size m now =
    start_clock (set_wire (set_upload_size (set_mebi new mebi) upload_size) m) now
