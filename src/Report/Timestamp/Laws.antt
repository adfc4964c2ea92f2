-- ===== src/Report/Timestamp/Laws.antt =====
-- What can be read back of a timestamp of src/report.rs.
use speedtest_cli_rust.Base.{
  ℕ, zero, suc, ◌+◌, ◌-◌, ◌*◌, ◌/◌, ◌%◌, ◌^◌, ◌≤◌, ◌<◌, true, false, ◌&&◌, [], ◌∷◌, ◌++◌, ◌≡◌, ◌≢◌,
  refl, sym, ap, ◌∙◌, ◌⊎◌, ◌==◌, if◌then◌else◌, is_empty, length, length-append, ltb, arith, inl,
  inr, Bool-cases,
}
use speedtest_cli_rust.Base.Text.{Text, codes}
use speedtest_cli_rust.Base.Decimal.{decimal, digits_loop, value_from, value-decimal}
use speedtest_cli_rust.Base.Int.{pos, negsuc}
use speedtest_cli_rust.Report.Timestamp.{zeros, padded, trim_zeros, fraction, signed, zone}

ten_times : (m : ℕ) → 10 ^ suc m ≡ 10 * 10 ^ m
ten_times m = omega arith

div_ten : (n k : ℕ) → n < 10 ^ suc (suc k) → n / 10 < 10 ^ suc k
div_ten n k h = omega (arith, ten_times (suc k))

digits_loop-length :
    (fuel n : ℕ) (acc : Text) (k : ℕ)
    → n < 10 ^ (suc k)
    → length (digits_loop fuel n acc) ≤ suc k + length acc
unfolding digits_loop
digits_loop-length zero n acc k h = omega arith
digits_loop-length (suc fuel) n acc zero h = ground arith
digits_loop-length (suc fuel) n acc (suc k) h = elim (Bool-cases (ltb n 10)) [
  | inl small ↦ rw small (omega arith)
  | inr big ↦
      let shorter = digits_loop-length fuel (n / 10) ((b'0' + n % 10) ∷ acc) k (div_ten n k h) in
      rw big (omega (arith, shorter))
]

value-zeros : (n : ℕ) (s : Text) → value_from 0 (zeros n ++ s) ≡ value_from 0 s
unfolding value_from
value-zeros zero s = refl
value-zeros (suc n) s = value-zeros n s

move : (acc p : ℕ) → (acc * 10 + 0) * p ≡ acc * (10 * p)
move acc p = grind arith

sub_suc : (m n : ℕ) → suc m - suc n ≡ m - n
sub_suc m n = omega arith

shift : (acc n c : ℕ) → c ≡ b'0' → (acc * 10 + (c - b'0')) * 10 ^ (n - 0) ≡ acc * 10 ^ (suc n - 0)
shift acc n c h =
    let a : n - 0 ≡ n = omega arith in
    let b : suc n - 0 ≡ suc n = omega arith in
    let d : c - b'0' ≡ 0 = omega arith in rw (a, b, d, ten_times n) (move acc (10 ^ n))

-- Digits off the end are zeros: what is left, moved by their number, is the value.
value-trim_zeros :
    (s : Text) (acc : ℕ)
    → value_from acc s ≡ value_from acc (trim_zeros s) * 10 ^ (length s - length (trim_zeros s))
unfolding value_from trim_zeros
value-trim_zeros [] acc = omega arith
value-trim_zeros (c ∷ s) acc = elim (Bool-cases (c == b'0' && is_empty (trim_zeros s))) [
  | inl off ↦
      rw off (off_the_end (trim_zeros s) refl off (value-trim_zeros s (acc * 10 + (c - b'0'))))
  | inr kept ↦
      rw (kept, sub_suc (length s) (length (trim_zeros s)))
        (value-trim_zeros s (acc * 10 + (c - b'0')))
]
  where
    off_the_end :
        (r : Text)
        → trim_zeros s ≡ r
        → (c == b'0' && is_empty r) ≡ true
        → value_from (acc * 10 + (c - b'0')) s
          ≡ value_from (acc * 10 + (c - b'0')) r * 10 ^ (length s - length r)
        → value_from (acc * 10 + (c - b'0')) s ≡ acc * 10 ^ (suc (length s) - 0)
    off_the_end [] e off ih = ih ∙ shift acc (length s) c (ground arith)
    off_the_end (d ∷ r) e off ih = absurd (ground arith)

-- The last digit that is left is not a zero.
abbrev pub last_or : ℕ → Text → ℕ
last_or d [] = d
last_or d (c ∷ s) = last_or c s

last-trim_zeros : (d : ℕ) (s : Text) → d ≢ b'0' → last_or d (trim_zeros s) ≢ b'0'
unfolding trim_zeros
last-trim_zeros d [] h = h
last-trim_zeros d (c ∷ s) h = elim (Bool-cases (c == b'0' && is_empty (trim_zeros s))) [
  | inl off ↦ rw off h
  | inr kept ↦ rw kept (still (trim_zeros s) kept (λ x. last-trim_zeros x s))
]
  where
    still :
        (r : Text)
        → (c == b'0' && is_empty r) ≡ false
        → ((x : ℕ) → x ≢ b'0' → last_or x r ≢ b'0')
        → last_or c r ≢ b'0'
    still [] k f = f c (ground arith)
    still (e ∷ r) k f = f d h

length-zeros : (n : ℕ) → length (zeros n) ≡ n
length-zeros zero = refl
length-zeros (suc n) = ap suc (length-zeros n)

-- A number that fits is padded to the width, and read back.
padded_lem :
    (width n : ℕ)
    → n < 10 ^ suc width
    → (length (padded (suc width) n) ≡ suc width) × (value_from 0 (padded (suc width) n) ≡ n)
unfolding padded decimal
padded_lem width n h =
    let fits = digits_loop-length (suc n) n [] width h in
    (
      length-append (zeros (suc width - length (decimal n))) (decimal n)
          ∙ rw (length-zeros (suc width - length (decimal n))) (omega (arith, fits)),
      value-zeros (suc width - length (decimal n)) (decimal n) ∙ value-decimal n,
    )

length-trim_zeros : (s : Text) → length (trim_zeros s) ≤ length s
unfolding trim_zeros
length-trim_zeros [] = omega arith
length-trim_zeros (c ∷ s) =
    let shorter = length-trim_zeros s in
    elim (Bool-cases (c == b'0' && is_empty (trim_zeros s))) [
      | inl off ↦ rw off (omega arith)
      | inr kept ↦ rw kept (omega (arith, shorter))
    ]

-- A fraction that stands for so many nanoseconds, with no zero at its end and nine digits at most.
abbrev pub IsFraction : ℕ → Text → Type 0
IsFraction nanos text =
    (digits : Text) × (text ≡ b'.' ∷ digits)
    × (value_from 0 digits * 10 ^ (9 - length digits) ≡ nanos)
    × (length digits ≤ 9)
    × (last_or b'.' digits ≢ b'0')

-- The nanoseconds within the second are written as a fraction that stands for exactly that many,
-- with no zero at its end and nine digits at most; no fraction is written where there are none.
fraction_lem :
    (nanosecond : ℕ)
    → ((nanosecond % 1000000000 ≡ 0) × (fraction nanosecond ≡ []))
      ⊎ ((1 ≤ nanosecond % 1000000000) × IsFraction (nanosecond % 1000000000) (fraction nanosecond))
unfolding fraction
fraction_lem nanosecond =
    let nanos = nanosecond % 1000000000 in
    let (wide, reads) = padded_lem 8 nanos (omega arith) in
    let value = value-trim_zeros (padded 9 nanos) 0 in
    let short = length-trim_zeros (padded 9 nanos) in
    elim (Bool-cases (nanos == 0)) [
      | inl none ↦ inl (ground arith, rw none refl)
      | inr some ↦ inr (
        ground arith,
        (
          trim_zeros (padded 9 nanos),
          rw some refl,
          ap
                (λ w.
                  value_from 0 (trim_zeros (padded 9 nanos))
                  * 10 ^ (w - length (trim_zeros (padded 9 nanos))))
                (sym wide)
              ∙ (sym value ∙ reads),
          omega (arith, short, wide),
          last-trim_zeros b'.' (padded 9 nanos) (λ e. omega arith),
        ),
      )
    ]

-- A zone that stands for so many minutes, with its sign.
abbrev pub IsZone : ℕ → ℕ → Text → Type 0
IsZone sign minutes text =
    (hh : Text) × (mm : Text) × (text ≡ sign ∷ (hh ++ (b':' ∷ mm)))
    × (length hh ≡ 2)
    × (length mm ≡ 2)
    × (value_from 0 hh * 60 + value_from 0 mm ≡ minutes)

signed_lem : (sign minutes : ℕ) → minutes < 6000 → IsZone sign minutes (signed sign minutes)
signed_lem sign minutes h =
    let (hw, hv) = padded_lem 1 (minutes / 60) (omega arith) in
    let (mw, mv) = padded_lem 1 (minutes % 60) (omega arith) in
    (padded 2 (minutes / 60), padded 2 (minutes % 60), refl, hw, mw, rw (hv, mv) (omega arith))

ahead :
    (seconds : ℕ)
    → seconds < 86400
    → (seconds ≡ 0) ⊎ IsZone b'+' (seconds / 60) (zone (pos seconds))
unfolding zone
ahead zero h = inl refl
ahead (suc seconds) h = inr (signed_lem b'+' (suc seconds / 60) (omega arith))

behind :
    (seconds : ℕ)
    → seconds < 86400
    → IsZone (if ltb seconds 59 then b'+' else b'-') ((seconds + 1) / 60) (zone (negsuc seconds))
unfolding zone
behind seconds h =
    let more : seconds + 1 ≡ suc seconds = omega arith in
    elim (Bool-cases (ltb seconds 59)) [
      | inl less ↦
          let none : (suc seconds / 60 == 0) ≡ true = ground arith in
          rw (more, less, none) (signed_lem b'+' (suc seconds / 60) (omega arith))
      | inr full ↦
          let some : (suc seconds / 60 == 0) ≡ false = ground arith in
          rw (more, full, some) (signed_lem b'-' (suc seconds / 60) (omega arith))
    ]

-- An offset less than a day ahead of UTC or behind it is written as its whole minutes, cut towards
-- zero, in two digits of hours and two of minutes. The sign is `-` where there are minutes behind
-- UTC, and `+` otherwise. No offset is `Z`.
zone_lem :
    (seconds : ℕ)
    → seconds < 86400
    → (zone (pos 0) ≡ codes "Z")
      × ((seconds ≡ 0) ⊎ IsZone b'+' (seconds / 60) (zone (pos seconds)))
      × IsZone (if ltb seconds 59 then b'+' else b'-') ((seconds + 1) / 60) (zone (negsuc seconds))
unfolding zone
zone_lem seconds h = (refl, ahead seconds h, behind seconds h)
