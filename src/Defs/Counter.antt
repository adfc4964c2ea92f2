-- ===== src/Defs/Counter.antt =====
-- `WriteMeter` and the streams that report to it (src/http/meter.rs), and `BytesCounter` with the
-- ceiling that the meter puts on its total (src/defs/bytes_counter.rs). The mutexes make each
-- operation atomic. The meter is one object that the connections write and the counter reads, so
-- it stands beside the counter; the release build counts modulo 2^64.
pub mod Ceiling
pub mod Average
use speedtest_cli_rust.Base.{
  ℕ, ◌+◌, ◌-◌, ◌*◌, ◌%◌, ◌^◌, min, Bool, true, false, Option, none, some, Result, ok, err,
}
use speedtest_cli_rust.Base.Text.{Text}

abbrev pub u64_mod : ℕ
u64_mod = 2 ^ 64

-- `struct WriteMeter`
pub record WriteMeter : Type 0 where
  pub written : ℕ

-- `WriteMeter::new`
abbrev pub new_meter : WriteMeter
new_meter = record { written = 0 }

-- `WriteMeter::add`
unfoldable pub meter_add : WriteMeter → ℕ → WriteMeter
meter_add m n = record m { written = (m.written + n) % u64_mod }

-- What a poll of the inner stream gives.
pub data Poll : Type 0 where
  pending : Poll
  ready : Result Text ℕ → Poll

-- `poll_write` and `poll_write_vectored` of `MeteredStream`: the inner stream's answer, and the
-- meter after it.
unfoldable pub poll_write : Poll → WriteMeter → Poll × WriteMeter
unfolding meter_add
poll_write pending m = (pending, m)
poll_write (ready (ok n)) m = (ready (ok n), meter_add m n)
poll_write (ready (err e)) m = (ready (err e), m)

-- `struct BytesCounter`; `start` is the instant in nanoseconds, `wire` the meter's reading when the
-- phase started.
pub record BytesCounter : Type 0 where
  pub total : ℕ
  pub start : Option ℕ
  pub mebi : Bool
  pub upload_size : ℕ
  pub wire : Option ℕ

-- `BytesCounter::new`
abbrev pub new : BytesCounter
new = record { total = 0; start = none; mebi = false; upload_size = 0; wire = none }

unfoldable pub set_mebi : BytesCounter → Bool → BytesCounter
set_mebi c mebi = record c { mebi = mebi }

-- The size is given in KiB.
unfoldable pub set_upload_size : BytesCounter → ℕ → BytesCounter
set_upload_size c upload_size_kib = record c { upload_size = upload_size_kib * 1024 % u64_mod }

unfoldable pub set_wire : BytesCounter → WriteMeter → BytesCounter
set_wire c m = record c { wire = some m.written }

unfoldable pub start_clock : BytesCounter → ℕ → BytesCounter
start_clock c now = record c { start = some now }

unfoldable pub add : BytesCounter → ℕ → BytesCounter
add c n = record c { total = (c.total + n) % u64_mod }

-- `saturating_sub` is `-` here.
abbrev capped : ℕ → WriteMeter → Option ℕ → ℕ
capped counted m (some start) = min counted (m.written - start)
capped counted m none = counted

unfoldable pub total : BytesCounter → WriteMeter → ℕ
total c m = capped c.total m c.wire
