-- ===== src/Tests/Streams.antt =====
-- Transfer streams and phases: src/defs/server.rs, and the choice of a server: src/speedtest.rs.
use speedtest_cli_rust.Base.{◌+◌, ◌%◌, some, List, [], ◌∷◌, ◌≡◌, refl, arith, ok}
use speedtest_cli_rust.Base.Text.{codes}
use speedtest_cli_rust.Output.{default}
use speedtest_cli_rust.Output.Streams.{stdout_text}
use speedtest_cli_rust.Http.Body.{data_frame, failure}
use speedtest_cli_rust.Defs.Counter
use speedtest_cli_rust.Defs.Counter.{u64_mod, new_meter}
use speedtest_cli_rust.Defs.Counter.Ceiling
use speedtest_cli_rust.Defs.Counter.Ceiling.{frame_taken, write_polled}
use speedtest_cli_rust.Defs.Transfer.{
  completed, request_failed, replaceable, stalls, arrives, Answered, answers, download_once,
  upload_once, stream_deadline,
}
use speedtest_cli_rust.Defs.Transfer.Stream.{
  Ends, has_head, received, bytes_of, once-Ends, download_once-counts,
}
use speedtest_cli_rust.Defs.Transfer.Phase.{
  Streams, spawn, on_join, shutdown, is_replaced, Wake, deadline, joined, moved, phase,
}
use speedtest_cli_rust.Defs.Transfer.Phase.Laws.{IsUpToDeadline, lost, replaced, moves, phase_lem}

-- A response of three bytes that breaks, on a server that answers at once.
abbrev breaking : Answered
breaking =
    answers 5
      (ok (arrives 6 (data_frame (1 ∷ 2 ∷ 3 ∷ [])) (arrives 7 (failure (codes "reset")) stalls)))

once-Ends_example :
    Ends
      (has_head (some (0 + 9)) breaking)
      (download_once default 9 0 breaking Counter.new []).value
    × Ends
        (has_head (some (0 + 9)) breaking)
        (upload_once default 9 0 2 (some (1 ∷ [])) [] breaking Counter.new []).value
once-Ends_example = once-Ends default 9 0 2 (some (1 ∷ [])) [] breaking Counter.new [] (omega arith)

download_once-counts_example :
    ((download_once default 9 0 breaking Counter.new []).counter.total
      ≡ (0 + bytes_of (received (stream_deadline 9 0) breaking)) % u64_mod)
    × (stdout_text (download_once default 9 0 breaking Counter.new []).console ≡ stdout_text [])
download_once-counts_example =
    download_once-counts default 9 0 breaking Counter.new [] (omega arith)

-- Two streams, of which one ends and is replaced, and one is lost; a byte comes behind the deadline.
abbrev course : List Wake
course =
    moved (frame_taken 3)
    ∷ joined (some completed)
    ∷ joined (some request_failed)
    ∷ deadline
    ∷ moved (frame_taken 1)
    ∷ []

abbrev after_course : Streams
after_course = record {
  tasks = 1;
  spawned = 3;
  bytes = record { counter = record Counter.new { total = 4 }; meter = new_meter };
}

coursing : phase 2 Counter.new new_meter course ≡ some after_course
unfolding phase shutdown spawn on_join is_replaced replaceable Ceiling.step
coursing = refl

phase_lem_example :
    IsUpToDeadline course
    × (1 + lost course ≡ 2)
    × (3 ≡ 2 + replaced course)
    × (after_course.bytes
        ≡ Ceiling.run (record { counter = Counter.new; meter = new_meter }) (moves course))
phase_lem_example = phase_lem 2 Counter.new new_meter course coursing
