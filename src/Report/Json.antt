-- ===== src/Report/Json.antt =====
-- A reader of JSON documents, for what `escape_like_go` of src/report.rs keeps of them.
pub mod Laws
use speedtest_cli_rust.Base.{
  ℕ, zero, suc, ◌+◌, ◌-◌, ◌*◌, ◌≤◌, Bool, true, false, not, ◌&&◌, ◌||◌, Option, none, some, List,
  [], ◌∷◌, ◌++◌, ◌≡◌, refl, sym, ap, ◌∙◌, ◌⊎◌, inl, inr, if◌then◌else◌, ◌==◌, ltb, within, All,
  All-append, arith, Bool-cases, Option-cases,
}
use speedtest_cli_rust.Base.Text.{Text, codes}
use speedtest_cli_rust.Report.{escape_char, escape_like_go}

-- The characters that `encoding/json` does not write.
abbrev pub is_special : ℕ → Bool
is_special c = c == b'<' || (c == b'>' || (c == b'&' || (c == 0x2028 || c == 0x2029)))

-- Where a reader of a JSON document stands: outside its strings, in a string, behind a backslash,
-- or behind `\u` with that many digits to come and the value so far.
pub data State : Type 0 where
  outside within_string escaped : State
  hex : ℕ → ℕ → State

-- A character of the document's structure, or one that a string means. A `\u` escape means the
-- character it numbers; serde_json writes one for control characters only, so no surrogates.
pub data Token : Type 0 where
  structure meant : ℕ → Token

abbrev pub is_hex : ℕ → Bool
is_hex c = within b'0' b'9' c || (within b'a' b'f' c || within b'A' b'F' c)

abbrev pub hex_value : ℕ → ℕ
hex_value c = if within b'0' b'9' c then c - b'0' else if within b'a' b'f' c then c - 87 else c - 55

-- `"`, `\`, `/`, `b`, `f`, `n`, `r` and `t`
abbrev pub is_escape : ℕ → Bool
is_escape c =
    c == b'"'
    || (c == 92
        || (c == b'/' || (c == b'b' || (c == b'f' || (c == b'n' || (c == b'r' || c == b't'))))))

abbrev pub escape_value : ℕ → ℕ
escape_value c =
    if c == b'b'
    then 8
    else if c == b'f'
    then 12
    else if c == b'n'
    then 10
    else if c == b'r'
    then 13
    else if c == b't'
    then 9
    else c

-- Where a character leads; the special ones stand in strings only.
unfoldable pub next : State → ℕ → Option State
next outside c =
    if is_special c then none else if c == b'"' then some within_string else some outside
next within_string c =
    if ltb c 32
    then none
    else if c == b'"'
    then some outside
    else if c == 92
    then some escaped
    else some within_string
next escaped c =
    if c == b'u' then some (hex 3 0) else if is_escape c then some within_string else none
next (hex zero v) c = if is_hex c then some within_string else none
next (hex (suc n) v) c = if is_hex c then some (hex n (v * 16 + hex_value c)) else none

-- What it adds to the document.
unfoldable pub adds : State → ℕ → List Token
adds outside c = structure c ∷ []
adds within_string c = if c == b'"' then structure c ∷ [] else if c == 92 then [] else meant c ∷ []
adds escaped c = if c == b'u' then [] else meant (escape_value c) ∷ []
adds (hex zero v) c = meant (v * 16 + hex_value c) ∷ []
adds (hex (suc n) v) c = []

abbrev pub onto : List Token → Option (List Token) → Option (List Token)
onto ts none = none
onto ts (some rest) = some (ts ++ rest)

-- What a document reads as from a state on; it has to end outside its strings.
unfoldable pub reads : Option State → Text → Option (List Token)
reads none s = none
reads (some outside) [] = some []
reads (some within_string) [] = none
reads (some escaped) [] = none
reads (some (hex n v)) [] = none
reads (some st) (c ∷ s) = onto (adds st c) (reads (next st c) s)
