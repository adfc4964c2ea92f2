-- ===== src/Quote.antt =====
-- `src/quote.rs`: Go's `%q` rendering of a byte string.
pub mod Table
pub mod Printable
pub mod Shown
use speedtest_cli_rust.Base.{
  ℕ, zero, suc, ◌+◌, ◌-◌, Bool, true, false, ◌||◌, ◌/◌, ◌%◌, List, [], ◌∷◌, ◌++◌, ltb, ◌==◌,
  if◌then◌else◌,
}
use speedtest_cli_rust.Base.Text.{Text, Bytes, codes}
use speedtest_cli_rust.Base.Ranges.{partition_lookup}
use Table.{go_printable}

-- `is_print`
unfoldable pub is_print : ℕ → Bool
unfolding partition_lookup go_printable
is_print c = partition_lookup go_printable c

-- A digit of `{:02x}`, `{:04x}` and `{:08x}`.
abbrev pub hex_digit : ℕ → ℕ
hex_digit d = if ltb d 10 then b'0' + d else b'a' + (d - 10)

-- The last `n` hexadecimal digits of a number, with leading zeros.
unfoldable pub hex : ℕ → ℕ → Text
hex zero x = []
hex (suc n) x = hex n (x / 16) ++ hex_digit (x % 16) ∷ []

abbrev pub escape : ℕ → Text
escape c = b'\\' ∷ c ∷ []

-- `write_escaped`: what is written for one character.
unfoldable pub write_escaped : ℕ → Text
unfolding hex
write_escaped c =
    if c == b'"' || c == b'\\'
    then escape c
    else if is_print c
    then c ∷ []
    else if c == 0x07
    then escape b'a'
    else if c == 0x08
    then escape b'b'
    else if c == 0x0c
    then escape b'f'
    else if c == b'\n'
    then escape b'n'
    else if c == b'\r'
    then escape b'r'
    else if c == b'\t'
    then escape b't'
    else if c == 0x0b
    then escape b'v'
    else if ltb c b' ' || c == 0x7f
    then escape b'x' ++ hex 2 c
    else if ltb c 0x10000
    then escape b'u' ++ hex 4 c
    else escape b'U' ++ hex 8 c

-- One of `utf8_chunks()`: the characters of its valid part and the bytes of its invalid one.
pub record Chunk : Type 0 where
  pub valid : Text
  pub invalid : Bytes

unfoldable pub write_valid : Text → Text
write_valid [] = []
write_valid (c ∷ s) = write_escaped c ++ write_valid s

-- `\x{b:02x}` of each byte
unfoldable pub write_invalid : Bytes → Text
unfolding hex
write_invalid [] = []
write_invalid (b ∷ bs) = (escape b'x' ++ hex 2 b) ++ write_invalid bs

unfoldable pub write_chunks : List Chunk → Text
write_chunks [] = []
write_chunks (k ∷ ks) = write_valid k.valid ++ (write_invalid k.invalid ++ write_chunks ks)

-- `GoQuote::fmt`
unfoldable pub go_quote : List Chunk → Text
go_quote chunks = b'"' ∷ (write_chunks chunks ++ b'"' ∷ [])
