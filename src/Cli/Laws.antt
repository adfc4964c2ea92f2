-- ===== src/Cli/Laws.antt =====
-- The delimiter and the wording of usage errors of src/cli.rs.
use speedtest_cli_rust.Base.{
  ℕ, zero, suc, true, false, [], ◌∷◌, ◌++◌, ◌≡◌, ◌≢◌, ◌↔◌, ◌<◌, refl, arith, ok, some, ap, ◌∙◌,
}
use speedtest_cli_rust.Base.Text.{Text, codes, starts_with}
use speedtest_cli_rust.Cli.{
  Cli, csv_delimiter_byte, single_byte, as_bytes, utf8_char, option, trim_dashes, first_piece,
  ends_name, go_usage_error, usage_of, unknown, context, ClapError, unknown_argument, invalid_arg,
  string,
}

single_byte_iff :
    (refusal s : Text) (b : ℕ)
    → (single_byte refusal (as_bytes s) ≡ ok b) ↔ ((s ≡ b ∷ []) × (b < 128) × (b ≢ 34))
unfolding single_byte as_bytes utf8_char
single_byte_iff refusal [] b = ground arith
single_byte_iff refusal (c ∷ []) b = ground arith
single_byte_iff refusal (c ∷ d ∷ s) b = ground arith

-- `n` dashes and a text
unfoldable pub dashed : ℕ → Text → Text
dashed zero s = s
dashed (suc n) s = b'-' ∷ dashed n s

-- Text without a character that ends an option's name.
unfoldable pub IsBare : Text → Type 0
IsBare [] = Unit
IsBare (c ∷ s) = (ends_name c ≡ false) × IsBare s

-- Nothing, or a character that ends the name and what comes behind it.
unfoldable pub Follows : Text → Type 0
Follows [] = Unit
Follows (c ∷ s) = ends_name c ≡ true

trim_dashes-dashed : (n c : ℕ) (s : Text) → c ≢ b'-' → trim_dashes (dashed n (c ∷ s)) ≡ c ∷ s
unfolding trim_dashes dashed
trim_dashes-dashed zero c s c≢ = ground arith
trim_dashes-dashed (suc n) c s c≢ = trim_dashes-dashed n c s c≢

first_piece-append :
    (name rest : Text) → IsBare name → Follows rest → first_piece (name ++ rest) ≡ name
unfolding first_piece IsBare Follows
first_piece-append [] [] bare follows = refl
first_piece-append [] (c ∷ rest) bare follows = rw follows refl
first_piece-append (c ∷ name) rest (here, bare) follows =
    rw here (ap (c ∷◌) (first_piece-append name rest bare follows))

-- A delimiter is accepted exactly if it is one character of ASCII other than a quote, and the byte is
-- that character.
csv_delimiter_byte_lem :
    (debug : Text → Text) (c : Cli) (b : ℕ)
    → (csv_delimiter_byte debug c ≡ ok b) ↔ ((c.csv_delimiter ≡ b ∷ []) × (b < 128) × (b ≢ b'"'))
unfolding csv_delimiter_byte
csv_delimiter_byte_lem debug c b = single_byte_iff _ c.csv_delimiter b

-- For an unknown option that is spelled with one dash or more, a name that neither begins with a dash
-- nor has a space or an equals sign in it, and nothing or a text that begins with one of those
-- behind it, the answer is Go's wording with the name behind a single dash.
go_usage_error-names :
    (debug : Text → Text) (e : ClapError) (n c : ℕ) (name rest : Text)
    → e.kind ≡ unknown_argument
    → e.get invalid_arg ≡ some (string (dashed (suc n) (c ∷ name ++ rest)))
    → c ≢ b'-'
    → IsBare (c ∷ name)
    → Follows rest
    → go_usage_error debug e ≡ some (codes "flag provided but not defined: -" ++ (c ∷ name))
unfolding go_usage_error usage_of context unknown dashed starts_with option trim_dashes
go_usage_error-names debug e n c name rest k g c≢ bare follows =
    rw (k, g)
      (ap (λ o. some (codes "flag provided but not defined: -" ++ o))
        (ap first_piece (trim_dashes-dashed n c (name ++ rest) c≢)
          ∙ first_piece-append (c ∷ name) rest bare follows))
