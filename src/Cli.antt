-- ===== src/Cli.antt =====
-- The answers of src/cli.rs that do not come from clap: `Cli::silent`, `Cli::csv_delimiter_byte` and
-- `go_usage_error`. Parsing is clap's, whose error is what its `kind` and `get` give.
pub mod Laws
use speedtest_cli_rust.Base.{
  ℕ, ◌+◌, ◌*◌, ◌-◌, ◌/◌, ◌%◌, ◌^◌, Bool, true, false, ◌&&◌, ◌||◌, Option, none, some, List, [], ◌∷◌,
  ◌++◌, Result, ok, err, ◌==◌, if◌then◌else◌, ltb, leb, within,
}
use speedtest_cli_rust.Base.Text.{Text, Bytes, codes, eq_text, starts_with}

-- The options of `struct Cli` that choose a format of output.
pub record Cli : Type 0 where
  pub simple : Bool
  pub json : Bool
  pub csv : Bool
  pub json_stream : Bool
  pub csv_delimiter : Text
  pub csv_header : Bool

unfoldable pub silent : Cli → Bool
silent c = c.simple || c.json || c.csv || c.json_stream

-- The bytes of a character in UTF-8, with the continuation byte of its last six bits.
unfoldable pub continuation : ℕ → ℕ
continuation c = 0x80 + c % 0x40

unfoldable pub utf8_char : ℕ → Bytes
utf8_char c =
    if ltb c 0x80
    then c ∷ []
    else if ltb c 0x800
    then (0xc0 + c / 0x40) ∷ continuation c ∷ []
    else if ltb c 0x10000
    then (0xe0 + c / 0x1000) ∷ continuation (c / 0x40) ∷ continuation c ∷ []
    else (0xf0 + c / 0x40000)
      ∷ continuation (c / 0x1000)
      ∷ continuation (c / 0x40)
      ∷ continuation c
      ∷ []

-- `str::as_bytes`
unfoldable pub as_bytes : Text → Bytes
as_bytes [] = []
as_bytes (c ∷ s) = utf8_char c ++ as_bytes s

unfoldable pub single_byte : Text → Bytes → Result Text ℕ
single_byte refusal (b ∷ []) = if b == b'"' then err refusal else ok b
single_byte refusal _ = err refusal

abbrev pub delimiter_refusal : Text
delimiter_refusal = codes "--csv-delimiter must be a single ASCII character other than '\"', got "

-- The delimiter's `Debug` form is an argument.
unfoldable pub csv_delimiter_byte : (Text → Text) → Cli → Result Text ℕ
csv_delimiter_byte debug c =
    single_byte (delimiter_refusal ++ debug c.csv_delimiter) (as_bytes c.csv_delimiter)

-- clap's `ErrorKind`, `ContextKind` and `ContextValue`, as far as they are told apart.
pub data ErrorKind : Type 0 where
  unknown_argument : ErrorKind
  invalid_value : ErrorKind
  value_validation : ErrorKind
  another_kind : ErrorKind

pub data ContextKind : Type 0 where
  invalid_arg : ContextKind
  invalid_value_of : ContextKind

pub data ContextValue : Type 0 where
  string : Text → ContextValue
  another_value : ContextValue

-- `clap::Error`
pub record ClapError : Type 0 where
  pub kind : ErrorKind
  pub get : ContextKind → Option ContextValue

abbrev pub text_of : Option ContextValue → Option Text
text_of (some (string s)) = some s
text_of _ = none

-- The closure `context`.
unfoldable pub context : ClapError → ContextKind → Option Text
context e k = text_of (e.get k)

-- `trim_start_matches('-')`
unfoldable pub trim_dashes : Text → Text
trim_dashes [] = []
trim_dashes (c ∷ s) = if c == b'-' then trim_dashes s else c ∷ s

unfoldable pub ends_name : ℕ → Bool
ends_name c = c == b' ' || c == b'='

-- `split([' ', '=']).next()`
unfoldable pub first_piece : Text → Text
first_piece [] = []
first_piece (c ∷ s) = if ends_name c then [] else c ∷ first_piece s

-- The closure `option`.
unfoldable pub option : Text → Text
option arg = first_piece (trim_dashes arg)

-- `parse::<i128>().is_ok()`: the number that decimal digits, at least one, write.
unfoldable pub digits_from : ℕ → Text → Option ℕ
digits_from n [] = some n
digits_from n (c ∷ s) =
    if leb b'0' c && leb c b'9' then digits_from (n * 10 + (c - b'0')) s else none

unfoldable pub magnitude : Text → Option ℕ
magnitude [] = none
magnitude (c ∷ s) = digits_from 0 (c ∷ s)

abbrev pub at_most : ℕ → Option ℕ → Bool
at_most limit none = false
at_most limit (some n) = leb n limit

unfoldable pub is_i128 : Text → Bool
is_i128 [] = false
is_i128 (c ∷ s) =
    if c == b'-'
    then at_most (2 ^ 127) (magnitude s)
    else if c == b'+'
    then at_most (2 ^ 127 - 1) (magnitude s)
    else at_most (2 ^ 127 - 1) (magnitude (c ∷ s))

abbrev pub reason : Text → Text
reason value = if is_i128 value then codes "value out of range" else codes "parse error"

unfoldable pub unknown : Text → Text
unknown arg =
    if starts_with arg (codes "-")
    then codes "flag provided but not defined: -" ++ option arg
    else codes "unexpected argument: " ++ arg

abbrev pub or_empty : Option Text → Text
or_empty none = []
or_empty (some s) = s

-- Whether the error is one of a missing argument is the first argument.
unfoldable pub invalid : (Text → Text) → Bool → Text → Text → Text
invalid debug is_invalid_value name value =
    if is_invalid_value && eq_text value []
    then codes "flag needs an argument: -" ++ name
    else codes "invalid value "
      ++ (debug value ++ (codes " for flag -" ++ (name ++ (codes ": " ++ reason value))))

abbrev pub map_text : (Text → Text) → Option Text → Option Text
map_text f none = none
map_text f (some s) = some (f s)

-- The answer for the kinds of error that a value is refused by.
unfoldable pub refused : (Text → Text) → ClapError → Bool → Option Text
refused debug e is_invalid_value =
    map_text
      (λ arg. invalid debug is_invalid_value (option arg) (or_empty (context e invalid_value_of)))
      (context e invalid_arg)

unfoldable pub usage_of : (Text → Text) → ClapError → ErrorKind → Option Text
usage_of debug e unknown_argument = map_text unknown (context e invalid_arg)
usage_of debug e invalid_value = refused debug e true
usage_of debug e value_validation = refused debug e false
usage_of debug e another_kind = none

-- The `Debug` form of a value is an argument.
unfoldable pub go_usage_error : (Text → Text) → ClapError → Option Text
go_usage_error debug e = usage_of debug e e.kind
