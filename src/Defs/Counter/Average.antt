-- ===== src/Defs/Counter/Average.antt =====
-- The averages of `BytesCounter` in src/defs/bytes_counter.rs, over an interface of floats, at an
-- instant and with what the meter reads then.
use speedtest_cli_rust.Base.{ℕ, ◌-◌, Option, none, some, ◌++◌, if◌then◌else◌}
use speedtest_cli_rust.Base.Text.{Text, codes}
use speedtest_cli_rust.Base.Float.{Float}
use speedtest_cli_rust.Defs.Counter.{WriteMeter, BytesCounter, total}

module _ (float : Float) (now : ℕ) (m : WriteMeter) where
  open float use {F, of_nat, div, lt, le, as_secs, fixed}

  abbrev secs_since : Option ℕ → F
  secs_since (some start) = as_secs (now - start)
  secs_since none = of_nat 0

  unfoldable pub elapsed_secs : BytesCounter → F
  elapsed_secs c = secs_since c.start

  unfoldable pub avg_bytes : BytesCounter → F
  unfolding elapsed_secs
  avg_bytes c =
      if le (elapsed_secs c) (of_nat 0) then of_nat 0 else div (of_nat (total c m)) (elapsed_secs c)

  unfoldable pub avg_mbps : BytesCounter → F
  unfolding avg_bytes
  avg_mbps c = div (avg_bytes c) (if c.mebi then of_nat 131072 else of_nat 125000)

  -- The rate in the largest unit of which there are less than `base`, or in gigabytes.
  abbrev scaled : F → F → Text
  scaled base val =
      if lt val base
      then fixed 2 val ++ codes " bytes/s"
      else if lt (div val base) base
      then fixed 2 (div val base) ++ codes " KB/s"
      else if lt (div (div val base) base) base
      then fixed 2 (div (div val base) base) ++ codes " MB/s"
      else fixed 2 (div (div (div val base) base) base) ++ codes " GB/s"

  unfoldable pub avg_humanize : BytesCounter → Text
  unfolding avg_bytes
  avg_humanize c = scaled (if c.mebi then of_nat 1024 else of_nat 1000) (avg_bytes c)
