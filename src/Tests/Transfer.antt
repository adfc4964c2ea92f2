-- ===== src/Tests/Transfer.antt =====
-- A short upload: src/defs/server.rs and src/defs/bytes_counter.rs.
use speedtest_cli_rust.Base.{◌+◌, ◌%◌, min, some, List, [], ◌∷◌, ◌≡◌, ok, length, All, arith}
use speedtest_cli_rust.Base.Text.{Bytes}
use speedtest_cli_rust.Defs.Counter.{u64_mod, BytesCounter, total, new_meter, pending, ready}
use speedtest_cli_rust.Defs.Counter.Ceiling.{
  Event, frame_taken, write_polled, run, begin, taken, wrote, total-run,
}
use speedtest_cli_rust.Defs.Upload.{size_hint}
use speedtest_cli_rust.Defs.Upload.Laws.{drain, concat, IsFrame, drain_lem}
use speedtest_cli_rust.Defs.Counter
use speedtest_cli_rust.Defs.Upload

abbrev three : Bytes
three = 7 ∷ 8 ∷ 9 ∷ []

drain_lem_example :
    (fs : List Bytes) × (drain 2 (Upload.new (some three) []) Counter.new
      ≡ some (record {
        frames = fs;
        counter = record Counter.new { total = (0 + length three) % u64_mod };
      }))
    × (concat fs ≡ three)
    × All IsFrame fs
    × (size_hint (Upload.new (some three) []) ≡ some (length (concat fs)))
drain_lem_example = drain_lem 1 three [] Counter.new (omega arith) (omega arith)

-- Five bytes are handed over, and three of them are on the wire.
abbrev events : List Event
events = frame_taken 3 ∷ write_polled pending ∷ write_polled (ready (ok 3)) ∷ frame_taken 2 ∷ []

total-run_example :
    total (run (begin new_meter) events).counter (run (begin new_meter) events).meter
    ≡ min (taken events) (wrote events)
total-run_example =
    total-run new_meter events (unfold taken in omega arith) (unfold wrote in omega arith)
