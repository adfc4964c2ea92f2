-- ===== src/Output/Sanitize/Laws.antt =====
-- What `sanitize` of src/output.rs drops and keeps.
use native.Mathlib.Decide.{dec_le}
use speedtest_cli_rust.Base.{
  ℕ, suc, List, true, false, ◌||◌, [], ◌∷◌, ◌++◌, ◌≡◌, refl, ap, ◌≤◌, ◌<◌, arith, ltb, ◌==◌, within,
  if◌then◌else◌, Bool-cases, All, ◌⊎◌, inl, inr, ◌↔◌,
}
use speedtest_cli_rust.Base.Text.{Text}
use speedtest_cli_rust.Base.Ranges.{Range, in_ranges, ascending, binary_search_by-in_ranges}
use speedtest_cli_rust.Output.Sanitize.{format_table, is_format_char, is_hostile, sanitize}

format_table-ascending : ascending 0 format_table ≡ true
unfolding ascending
format_table-ascending = refl

-- The binary search in the table of format characters is the scan of its ranges.
pub is_format_char-in_ranges : (c : ℕ) → is_format_char c ≡ in_ranges format_table c
unfolding is_format_char
is_format_char-in_ranges c = binary_search_by-in_ranges format_table format_table-ascending c

-- The format characters of Unicode, its general category Cf, by what they are for.
pub data FormatCharacter (c : ℕ) : Type 0 where
  soft_hyphen : 0xad ≤ c → c ≤ 0xad → FormatCharacter c
  arabic_number_sign : 0x600 ≤ c → c ≤ 0x605 → FormatCharacter c
  arabic_letter_mark : 0x61c ≤ c → c ≤ 0x61c → FormatCharacter c
  end_of_ayah : 0x6dd ≤ c → c ≤ 0x6dd → FormatCharacter c
  syriac_abbreviation_mark : 0x70f ≤ c → c ≤ 0x70f → FormatCharacter c
  arabic_currency_mark : 0x890 ≤ c → c ≤ 0x891 → FormatCharacter c
  disputed_end_of_ayah : 0x8e2 ≤ c → c ≤ 0x8e2 → FormatCharacter c
  mongolian_vowel_separator : 0x180e ≤ c → c ≤ 0x180e → FormatCharacter c
  zero_width : 0x200b ≤ c → c ≤ 0x200d → FormatCharacter c
  direction_mark : 0x200e ≤ c → c ≤ 0x200f → FormatCharacter c
  bidi_embedding : 0x202a ≤ c → c ≤ 0x202e → FormatCharacter c
  invisible_operator : 0x2060 ≤ c → c ≤ 0x2064 → FormatCharacter c
  -- not of Cf, but reserved as ignorable
  unassigned : c ≡ 0x2065 → FormatCharacter c
  bidi_isolate : 0x2066 ≤ c → c ≤ 0x2069 → FormatCharacter c
  deprecated_format : 0x206a ≤ c → c ≤ 0x206f → FormatCharacter c
  byte_order_mark : 0xfeff ≤ c → c ≤ 0xfeff → FormatCharacter c
  interlinear_annotation : 0xfff9 ≤ c → c ≤ 0xfffb → FormatCharacter c
  kaithi_number_sign : 0x110bd ≤ c → c ≤ 0x110bd → FormatCharacter c
  kaithi_number_sign_above : 0x110cd ≤ c → c ≤ 0x110cd → FormatCharacter c
  hieroglyph_joiner : 0x13430 ≤ c → c ≤ 0x1343f → FormatCharacter c
  shorthand_format : 0x1bca0 ≤ c → c ≤ 0x1bca3 → FormatCharacter c
  musical_symbol : 0x1d173 ≤ c → c ≤ 0x1d17a → FormatCharacter c
  language_tag : 0xe0001 ≤ c → c ≤ 0xe0001 → FormatCharacter c
  tag_character : 0xe0020 ≤ c → c ≤ 0xe007f → FormatCharacter c

-- The classes of characters that the comment on `sanitize` names.
pub data Steers (c : ℕ) : Type 0 where
  c0 : c < 0x20 → Steers c
  del : c ≡ 0x7f → Steers c
  c1 : 0x80 ≤ c → c ≤ 0x9f → Steers c
  separator : (c ≡ 0x2028) ⊎ (c ≡ 0x2029) → Steers c
  tag : 0xe0000 ≤ c → c ≤ 0xe007f → Steers c
  format : FormatCharacter c → Steers c

-- A range of a table, or the rest of it.
in_range_or :
    {X : Type 0} {lo hi : ℕ} (t : List Range) (c : ℕ)
    → (lo ≤ c → c ≤ hi → X)
    → (in_ranges t c ≡ true → X)
    → in_ranges ((lo, hi) ∷ t) c ≡ true
    → X
unfolding in_ranges
in_range_or {lo = lo} {hi = hi} t c here later h = elim (Bool-cases (within lo hi c)) [
  | inl e ↦ here (ground arith) (ground arith)
  | inr e ↦ later (rw e at h)
]

in_no_range : {X : Type 0} (c : ℕ) → in_ranges [] c ≡ true → X
unfolding in_ranges
in_no_range c h = cc

zero_width_or_mark : (c : ℕ) → 0x200b ≤ c → c ≤ 0x200f → FormatCharacter c
zero_width_or_mark c low high = elim (dec_le c 0x200d) [
  | yes h ↦ zero_width low h
  | no h ↦ direction_mark (omega arith) high
]

invisible : (c : ℕ) → 0x2060 ≤ c → c ≤ 0x206f → FormatCharacter c
invisible c low high = elim (dec_le c 0x2064) [
  | yes h ↦ invisible_operator low h
  | no h ↦ elim (dec_le c 0x2065) [
    | yes k ↦ unassigned (omega arith)
    | no k ↦ elim (dec_le c 0x2069) [
      | yes l ↦ bidi_isolate (omega arith) l
      | no l ↦ deprecated_format (omega arith) high
    ]
  ]
]

in_ranges-FormatCharacter : (c : ℕ) → in_ranges format_table c ≡ true → FormatCharacter c
in_ranges-FormatCharacter c = in_range_or _ c soft_hyphen (
    in_range_or _ c arabic_number_sign (
      in_range_or _ c arabic_letter_mark (
        in_range_or _ c end_of_ayah (
          in_range_or _ c syriac_abbreviation_mark (
            in_range_or _ c arabic_currency_mark (
              in_range_or _ c disputed_end_of_ayah (
                in_range_or _ c mongolian_vowel_separator (
                  in_range_or _ c (zero_width_or_mark c) (
                    in_range_or _ c bidi_embedding (
                      in_range_or _ c (invisible c) (
                        in_range_or _ c byte_order_mark (
                          in_range_or _ c interlinear_annotation (
                            in_range_or _ c kaithi_number_sign (
                              in_range_or _ c kaithi_number_sign_above (
                                in_range_or _ c hieroglyph_joiner (
                                  in_range_or _ c shorthand_format (
                                    in_range_or _ c musical_symbol (
                                      in_range_or _ c language_tag (
                                        in_range_or _ c tag_character
                                          (in_no_range c))))))))))))))))))))

pub FormatCharacter-in_ranges : (c : ℕ) → FormatCharacter c → in_ranges format_table c ≡ true
unfolding in_ranges
FormatCharacter-in_ranges c (soft_hyphen h k) = ground arith
FormatCharacter-in_ranges c (arabic_number_sign h k) = ground arith
FormatCharacter-in_ranges c (arabic_letter_mark h k) = ground arith
FormatCharacter-in_ranges c (end_of_ayah h k) = ground arith
FormatCharacter-in_ranges c (syriac_abbreviation_mark h k) = ground arith
FormatCharacter-in_ranges c (arabic_currency_mark h k) = ground arith
FormatCharacter-in_ranges c (disputed_end_of_ayah h k) = ground arith
FormatCharacter-in_ranges c (mongolian_vowel_separator h k) = ground arith
FormatCharacter-in_ranges c (zero_width h k) = ground arith
FormatCharacter-in_ranges c (direction_mark h k) = ground arith
FormatCharacter-in_ranges c (bidi_embedding h k) = ground arith
FormatCharacter-in_ranges c (invisible_operator h k) = ground arith
FormatCharacter-in_ranges c (unassigned h) = ground arith
FormatCharacter-in_ranges c (bidi_isolate h k) = ground arith
FormatCharacter-in_ranges c (deprecated_format h k) = ground arith
FormatCharacter-in_ranges c (byte_order_mark h k) = ground arith
FormatCharacter-in_ranges c (interlinear_annotation h k) = ground arith
FormatCharacter-in_ranges c (kaithi_number_sign h k) = ground arith
FormatCharacter-in_ranges c (kaithi_number_sign_above h k) = ground arith
FormatCharacter-in_ranges c (hieroglyph_joiner h k) = ground arith
FormatCharacter-in_ranges c (shorthand_format h k) = ground arith
FormatCharacter-in_ranges c (musical_symbol h k) = ground arith
FormatCharacter-in_ranges c (language_tag h k) = ground arith
FormatCharacter-in_ranges c (tag_character h k) = ground arith

Steers-is_hostile : (c : ℕ) → Steers c → is_hostile c ≡ true
unfolding is_hostile
Steers-is_hostile c (c0 h) = ground arith
Steers-is_hostile c (del h) = ground arith
Steers-is_hostile c (c1 h k) = ground arith
Steers-is_hostile c (separator h) = ground arith
Steers-is_hostile c (tag h k) = ground arith
Steers-is_hostile c (format h) =
    ground (arith, is_format_char-in_ranges c, FormatCharacter-in_ranges c h)

is_hostile-Steers : (c : ℕ) → is_hostile c ≡ true → Steers c
unfolding is_hostile
is_hostile-Steers c h = elim (Bool-cases (ltb c 0x20)) [
  | inl a ↦ c0 (ground arith)
  | inr a ↦ elim (Bool-cases (c == 0x7f)) [
    | inl b ↦ del (ground arith)
    | inr b ↦ elim (Bool-cases (within 0x80 0x9f c)) [
      | inl d ↦ c1 (ground arith) (ground arith)
      | inr d ↦ elim (Bool-cases (c == 0x2028 || c == 0x2029)) [
        | inl e ↦ separator (ground arith)
        | inr e ↦ elim (Bool-cases (within 0xe0000 0xe007f c)) [
          | inl f ↦ tag (ground arith) (ground arith)
          | inr f ↦
              format (in_ranges-FormatCharacter c (ground (arith, is_format_char-in_ranges c)))
        ]
      ]
    ]
  ]
]

-- A character is dropped exactly when it is of one of those classes: below U+0020 or from U+007F to
-- U+009F, a line or paragraph separator, in the tag block, or a format character, with U+2065, which
-- Unicode leaves unassigned among them.
pub is_hostile_iff : (c : ℕ) → (is_hostile c ≡ true) ↔ Steers c
is_hostile_iff c = (is_hostile-Steers c, Steers-is_hostile c)

-- The character cannot steer a terminal or a reader.
abbrev pub Harmless : Text → Type 0
Harmless = All (λ c. is_hostile c ≡ false)

pub sanitize-Harmless : (s : Text) → Harmless (sanitize s)
unfolding sanitize
sanitize-Harmless [] = tt
sanitize-Harmless (c ∷ s) = elim (Bool-cases (is_hostile c)) [
  | inl drop ↦ rw drop (sanitize-Harmless s)
  | inr stay ↦ rw stay (stay, sanitize-Harmless s)
]

pub sanitize_kept : (s : Text) → Harmless s → sanitize s ≡ s
unfolding sanitize
sanitize_kept [] h = refl
sanitize_kept (c ∷ s) h = rw (h.0) (ap (◌∷◌ c) (sanitize_kept s h.1))

pub sanitize-append : (s t : Text) → sanitize (s ++ t) ≡ sanitize s ++ sanitize t
unfolding sanitize
sanitize-append [] t = refl
sanitize-append (c ∷ s) t = elim (Bool-cases (is_hostile c)) [
  | inl drop ↦ rw drop (sanitize-append s t)
  | inr stay ↦ rw stay (ap (◌∷◌ c) (sanitize-append s t))
]

-- How often a character occurs.
unfoldable pub count : ℕ → Text → ℕ
count a [] = 0
count a (c ∷ s) = let rest = count a s in if c == a then suc rest else rest

count-sanitize : (a : ℕ) (s : Text) → count a (sanitize s) ≡ (if is_hostile a then 0 else count a s)
unfolding sanitize count
count-sanitize a [] = ground arith
count-sanitize a (c ∷ s) = ground (arith, count-sanitize a s)

-- A character is dropped, or as frequent as before.
abbrev pub IsDroppedOrKept : ℕ → Text → Type 0
IsDroppedOrKept a s =
    (Steers a × (count a (sanitize s) ≡ 0)) ⊎ ((¬ Steers a) × (count a (sanitize s) ≡ count a s))

pub IsDroppedOrKept-sanitize : (a : ℕ) (s : Text) → IsDroppedOrKept a s
IsDroppedOrKept-sanitize a s =
    let counted : count a (sanitize s) ≡ (if is_hostile a then 0 else count a s) =
      count-sanitize a s in
    elim (Bool-cases (is_hostile a)) [
      | inl e ↦ inl (is_hostile-Steers a e, rw e at counted)
      | inr e ↦ inr (λ steers. cc (Steers-is_hostile a steers), rw e at counted)
    ]

-- Of the classes of characters that steer a terminal or a reader none is left in sanitized text, and
-- every character of no such class occurs in it as often as before. Pieces of a text are sanitized to
-- the pieces of what it is sanitized to, and sanitized text is left as it is.
pub sanitize_lem :
    (a : ℕ) (s t : Text)
    → IsDroppedOrKept a s
      × (sanitize (s ++ t) ≡ sanitize s ++ sanitize t)
      × (sanitize (sanitize s) ≡ sanitize s)
sanitize_lem a s t = (
  IsDroppedOrKept-sanitize a s,
  sanitize-append s t,
  sanitize_kept (sanitize s) (sanitize-Harmless s),
)
