-- ===== src/Speedtest/Files.antt =====
-- `read_file` and `go_io` of src/speedtest.rs, over the file system.
use speedtest_cli_rust.Base.{
  ℕ, ◌+◌, ◌≤◌, min, true, false, Option, none, some, [], ◌∷◌, ◌++◌, ◌≡◌, refl, if◌then◌else◌, ltb,
  leb, length, take, take_all, length-take, Result, ok, err, arith, inl, inr, Bool-cases,
}
use speedtest_cli_rust.Base.Text.{Text, Bytes, codes}
use speedtest_cli_rust.Base.Find.{find}
use speedtest_cli_rust.Base.Decimal.{decimal}

-- `std::fs`: opening a file gives its bytes or an error of reading them; an error is its message.
pub record FileSystem : Type 0 where
  pub open_file : Text → Result Text (Result Text Bytes)
  -- `Path::display`
  pub display : Text → Text
  -- `char::to_lowercase`
  pub to_lowercase : ℕ → Text

abbrev pub u64_max : ℕ
u64_max = 18446744073709551615

abbrev first_piece : Text → Option (Text × Text) → Text
first_piece text none = text
first_piece text (some (before, after)) = before

module _ (fs : FileSystem) where
  open fs use {open_file, display, to_lowercase}

  abbrev lower_first : Text → Text
  lower_first [] = []
  lower_first (c ∷ rest) = to_lowercase c ++ rest

  -- On Unix, where `cfg!(unix)` holds.
  unfoldable pub go_io : Text → Text
  go_io text = lower_first (first_piece text (find (codes " (os error ") text))

  abbrev pub capped : Text → ℕ → Bytes → Result Text Bytes
  capped shown cap buf =
      if ltb cap (length buf)
      then err (shown ++ (codes " exceeds " ++ (decimal cap ++ codes " bytes")))
      else ok buf

  abbrev pub read_to_end : Text → ℕ → Result Text Bytes → Result Text Bytes
  read_to_end shown cap (err e) = err (codes "read " ++ (shown ++ (codes ": " ++ go_io e)))
  read_to_end shown cap (ok bytes) = capped shown cap (take (min (cap + 1) u64_max) bytes)

  abbrev pub opened : Text → ℕ → Result Text (Result Text Bytes) → Result Text Bytes
  opened shown cap (err e) = err (codes "open " ++ (shown ++ (codes ": " ++ go_io e)))
  opened shown cap (ok file) = read_to_end shown cap file

  unfoldable pub read_file : Text → ℕ → Result Text Bytes
  read_file path cap = opened (display path) cap (open_file path)

  -- A file that can be read is returned whole where it has at most the cap, and refused where it
  -- has more. Files have fewer than 2 ^ 64 bytes.
  read_file_lem :
      (path : Text) (cap : ℕ) (bytes : Bytes)
      → length bytes ≤ u64_max
      → cap ≤ u64_max
      → open_file path ≡ ok (ok bytes)
      → read_file path cap ≡ (
          if leb (length bytes) cap
          then ok bytes
          else err (display path ++ (codes " exceeds " ++ (decimal cap ++ codes " bytes"))))
  unfolding read_file
  read_file_lem path cap bytes h k e = elim (Bool-cases (leb (length bytes) cap)) [
    | inl small ↦
        let fits : length bytes ≤ min (cap + 1) u64_max = ground arith in
        let not_over : ltb cap (length bytes) ≡ false = ground arith in
        rw (e, small, take_all (min (cap + 1) u64_max) bytes fits, not_over) refl
    | inr large ↦
        let over : ltb cap (length (take (min (cap + 1) u64_max) bytes)) ≡ true =
          ground (arith, length-take (min (cap + 1) u64_max) bytes) in
        rw (e, large, over) refl
  ]
