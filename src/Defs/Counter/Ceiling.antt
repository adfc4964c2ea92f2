-- ===== src/Defs/Counter/Ceiling.antt =====
-- The total of an upload phase under any interleaving of its streams and connections:
-- src/defs/bytes_counter.rs and src/http/meter.rs.
use speedtest_cli_rust.Base.{ℕ, ◌+◌, ◌-◌, ◌<◌, min, some, ok, err, List, [], ◌∷◌, ◌≡◌, refl, arith}
use speedtest_cli_rust.Defs.Counter.{
  u64_mod, WriteMeter, Poll, pending, ready, poll_write, BytesCounter, new, set_wire, add, total,
}

-- What happens to the two: a body hands a frame of `n` bytes to hyper, or a connection polls its
-- transport for a write.
pub data Event : Type 0 where
  frame_taken : ℕ → Event
  write_polled : Poll → Event

pub record Phase : Type 0 where
  pub counter : BytesCounter
  pub meter : WriteMeter

unfoldable pub step : Phase → Event → Phase
unfolding add
step p (frame_taken n) = record p { counter = add p.counter n }
step p (write_polled w) = record p { meter = (poll_write w p.meter).1 }

-- The phase after events in their order.
unfoldable pub run : Phase → List Event → Phase
unfolding step
run p [] = p
run p (e ∷ es) = run (step p e) es

-- The bytes of all frames taken, and of all writes that the transport accepted.
abbrev accepted : Poll → ℕ
accepted pending = 0
accepted (ready (ok n)) = n
accepted (ready (err e)) = 0

unfoldable pub taken : List Event → ℕ
taken [] = 0
taken (frame_taken n ∷ es) = n + taken es
taken (write_polled w ∷ es) = taken es

unfoldable pub wrote : List Event → ℕ
wrote [] = 0
wrote (frame_taken n ∷ es) = wrote es
wrote (write_polled w ∷ es) = accepted w + wrote es

-- The phase at its start: the counter reads the meter.
unfoldable pub begin : WriteMeter → Phase
unfolding set_wire
begin m = record { counter = set_wire new m; meter = m }

poll_write-accepted :
    (w : Poll) (m : WriteMeter)
    → m.written + accepted w < u64_mod
    → (poll_write w m).1.written ≡ m.written + accepted w
unfolding poll_write
poll_write-accepted pending m h = omega arith
poll_write-accepted (ready (ok n)) m h = omega arith
poll_write-accepted (ready (err e)) m h = omega arith

pub run_counts :
    (es : List Event) (p : Phase)
    → p.counter.total + taken es < u64_mod
    → p.meter.written + wrote es < u64_mod
    → ((run p es).counter.total ≡ p.counter.total + taken es)
      × ((run p es).meter.written ≡ p.meter.written + wrote es)
      × ((run p es).counter.wire ≡ p.counter.wire)
unfolding run taken wrote
run_counts [] p h k = (omega arith, omega arith, refl)
run_counts (frame_taken n ∷ es) p h k =
    let (a, b, c) = run_counts es (step p (frame_taken n)) (omega arith) (omega arith) in
    (omega arith, b, c)
run_counts (write_polled w ∷ es) p h k =
    let m : (poll_write w p.meter).1.written ≡ p.meter.written + accepted w =
      poll_write-accepted w p.meter (omega arith) in
    let (a, b, c) = run_counts es (step p (write_polled w)) (omega arith) (omega arith) in
    (a, omega arith, c)

pub total-wire :
    (c : BytesCounter) (m : WriteMeter) (s : ℕ)
    → c.wire ≡ some s
    → total c m ≡ min c.total (m.written - s)
unfolding total
total-wire c m s e = rw e refl

-- However frames and writes interleave, the total of an upload phase is the number of body bytes
-- taken, or the number of bytes that the connections wrote in the phase if that is less.
pub total-run :
    (m : WriteMeter) (es : List Event)
    → taken es < u64_mod
    → m.written + wrote es < u64_mod
    → total (run (begin m) es).counter (run (begin m) es).meter ≡ min (taken es) (wrote es)
unfolding begin
total-run m es h k =
    let (a, b, c) = run_counts es (begin m) (omega arith) (omega arith) in
    omega (arith, a, b, total-wire (run (begin m) es).counter (run (begin m) es).meter m.written c)
