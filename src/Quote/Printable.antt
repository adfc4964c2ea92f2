-- ===== src/Quote/Printable.antt =====
-- What `is_print` of src/quote.rs accepts.
use speedtest_cli_rust.Base.{
  ℕ, true, false, ◌≡◌, refl, ◌∙◌, List, ◌∷◌, arith, within, Bool-cases, inl, inr,
}
use speedtest_cli_rust.Base.Ranges.{
  Range, in_ranges, in_ranges-head, in_ranges-tail, ascending, partition_lookup-in_ranges, apart,
  apart_lem,
}
use speedtest_cli_rust.Output.Sanitize.{format_table, is_hostile}
use speedtest_cli_rust.Output.Sanitize.Laws.{
  Steers, c0, del, c1, separator, tag, format, is_hostile_iff, FormatCharacter-in_ranges,
}
use speedtest_cli_rust.Quote.Table.{go_printable}
use speedtest_cli_rust.Quote.{is_print}

go_printable-ascending : ascending 0 go_printable ≡ true
unfolding ascending go_printable
go_printable-ascending = refl

-- The partition point of the table decides membership in its ranges.
is_print-in_ranges : (c : ℕ) → is_print c ≡ in_ranges go_printable c
unfolding is_print
is_print-in_ranges c = partition_lookup-in_ranges go_printable go_printable-ascending c

-- All that `is_hostile` refuses, as one table.
abbrev hostile_table : List Range
hostile_table =
    (0x00, 0x1f)
    ∷ (0x7f, 0x7f)
    ∷ (0x80, 0x9f)
    ∷ (0x2028, 0x2029)
    ∷ (0xe0000, 0xe007f)
    ∷ format_table

Steers-hostile_table : (c : ℕ) → Steers c → in_ranges hostile_table c ≡ true
Steers-hostile_table c (c0 h) = unfold in_ranges in ground arith
Steers-hostile_table c (del h) = unfold in_ranges in ground arith
Steers-hostile_table c (c1 h k) = unfold in_ranges in ground arith
Steers-hostile_table c (separator h) = unfold in_ranges in ground arith
Steers-hostile_table c (tag h k) = unfold in_ranges in ground arith
Steers-hostile_table c (format h) = in_ranges-tail _ c _ (
    in_ranges-tail _ c _ (
      in_ranges-tail _ c _
        (in_ranges-tail _ c _ (in_ranges-tail _ c _ (FormatCharacter-in_ranges c h)))))

apart_tables : apart go_printable hostile_table ≡ true
unfolding apart go_printable
apart_tables = refl

-- What Go prints as it is does not steer a terminal or a reader.
pub is_print-harmless : (c : ℕ) → is_print c ≡ true → is_hostile c ≡ false
is_print-harmless c h = elim (Bool-cases (is_hostile c)) [
  | inl hostile ↦ cc (
    Steers-hostile_table c ((is_hostile_iff c).0 hostile),
    apart_lem go_printable hostile_table c apart_tables (rw (is_print-in_ranges c) at h),
  )
  | inr harmless ↦ harmless
]

pub ascii-is_print : (c : ℕ) → within 0x20 0x7e c ≡ true → is_print c ≡ true
unfolding go_printable
ascii-is_print c h = is_print-in_ranges c ∙ in_ranges-head 0x20 0x7e c _ h
