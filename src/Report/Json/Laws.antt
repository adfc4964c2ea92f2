-- ===== src/Report/Json/Laws.antt =====
-- What `escape_like_go` of src/report.rs keeps of a JSON document.
use speedtest_cli_rust.Base.{
  ℕ, zero, suc, Bool, true, false, not, ◌&&◌, Option, none, some, List, [], ◌∷◌, ◌++◌, ◌≡◌, refl,
  sym, ap, ◌∙◌, ◌⊎◌, inl, inr, All, All-append, arith, Bool-cases, Option-cases,
}
use speedtest_cli_rust.Base.Text.{Text}
use speedtest_cli_rust.Report.{escape_char, escape_like_go}
use speedtest_cli_rust.Report.Json.{
  is_special, State, outside, within_string, escaped, hex, Token, meant, next, adds, onto, reads,
}

plain_char : (c : ℕ) → is_special c ≡ false → escape_char c ≡ c ∷ []
unfolding escape_char
plain_char c h = ground arith

reads-none : (s : Text) → reads none s ≡ none
unfolding reads
reads-none s = refl

reads_step :
    (st : State) (c : ℕ) (s : Text)
    → reads (some st) (c ∷ s) ≡ onto (adds st c) (reads (next st c) s)
unfolding reads
reads_step st c s = refl

special_cases :
    (c : ℕ)
    → is_special c ≡ true
    → (c ≡ b'<') ⊎ ((c ≡ b'>') ⊎ ((c ≡ b'&') ⊎ ((c ≡ 0x2028) ⊎ (c ≡ 0x2029))))
special_cases c h = ground arith

-- The reader of a string takes an escape for the character that it stands for.
MeansItself : ℕ → Text → Type 0
MeansItself c s =
    reads (some within_string) (escape_char c ++ s)
    ≡ onto (meant c ∷ []) (reads (some within_string) s)

less : (s : Text) → MeansItself b'<' s
unfolding MeansItself reads next adds escape_char
less s = elim (Option-cases (reads (some within_string) s)) [
  | inl e ↦ rw e refl
  | inr (ts, e) ↦ rw e refl
]

greater : (s : Text) → MeansItself b'>' s
unfolding MeansItself reads next adds escape_char
greater s = elim (Option-cases (reads (some within_string) s)) [
  | inl e ↦ rw e refl
  | inr (ts, e) ↦ rw e refl
]

ampersand : (s : Text) → MeansItself b'&' s
unfolding MeansItself reads next adds escape_char
ampersand s = elim (Option-cases (reads (some within_string) s)) [
  | inl e ↦ rw e refl
  | inr (ts, e) ↦ rw e refl
]

line_separator : (s : Text) → MeansItself 0x2028 s
unfolding MeansItself reads next adds escape_char
line_separator s = elim (Option-cases (reads (some within_string) s)) [
  | inl e ↦ rw e refl
  | inr (ts, e) ↦ rw e refl
]

paragraph_separator : (s : Text) → MeansItself 0x2029 s
unfolding MeansItself reads next adds escape_char
paragraph_separator s = elim (Option-cases (reads (some within_string) s)) [
  | inl e ↦ rw e refl
  | inr (ts, e) ↦ rw e refl
]

means_itself : (c : ℕ) (s : Text) → is_special c ≡ true → MeansItself c s
means_itself c s h = elim (special_cases c h) [
  | inl e ↦ rw e (less s)
  | inr (inl e) ↦ rw e (greater s)
  | inr (inr (inl e)) ↦ rw e (ampersand s)
  | inr (inr (inr (inl e))) ↦ rw e (line_separator s)
  | inr (inr (inr (inr e))) ↦ rw e (paragraph_separator s)
]

-- A special character stands in strings only.
special_next :
    (st : State) (c : ℕ)
    → is_special c ≡ true
    → (next st c ≡ none)
      ⊎ ((st ≡ within_string) × (next st c ≡ some within_string) × (adds st c ≡ meant c ∷ []))
unfolding next adds
special_next outside c h = ground arith
special_next within_string c h = inr (refl, ground arith, ground arith)
special_next escaped c h = inl (ground arith)
special_next (hex zero v) c h = inl (ground arith)
special_next (hex (suc n) v) c h = inl (ground arith)

reads_dead :
    (st : State) (c : ℕ) (s : Text) → reads (next st c) s ≡ none → reads (some st) (c ∷ s) ≡ none
unfolding reads
reads_dead st c s e = rw e refl

behind_plain :
    (st : State) (c : ℕ) (s : Text)
    → is_special c ≡ false
    → (reads (next st c) s ≡ none) ⊎ (reads (next st c) (escape_like_go s) ≡ reads (next st c) s)
    → (reads (some st) (c ∷ s) ≡ none)
      ⊎ (reads (some st) (escape_like_go (c ∷ s)) ≡ reads (some st) (c ∷ s))
unfolding escape_like_go
behind_plain st c s plain (inl e) = inl (reads_dead st c s e)
behind_plain st c s plain (inr e) =
    inr (rw (plain_char c plain) (unfold reads in ap (onto (adds st c)) e))

behind_special :
    (st : State) (c : ℕ) (s : Text)
    → is_special c ≡ true
    → st ≡ within_string
    → next st c ≡ some within_string
    → adds st c ≡ meant c ∷ []
    → (reads (some within_string) s ≡ none)
      ⊎ (reads (some within_string) (escape_like_go s) ≡ reads (some within_string) s)
    → (reads (some st) (c ∷ s) ≡ none)
      ⊎ (reads (some st) (escape_like_go (c ∷ s)) ≡ reads (some st) (c ∷ s))
unfolding escape_like_go MeansItself
behind_special st c s special at e a (inl dead) = inl (reads_dead st c s (rw (e, dead) refl))
behind_special st c s special at e a (inr k) = inr (
    ap (λ x. reads (some x) (escape_char c ++ escape_like_go s)) at
    ∙ (means_itself c (escape_like_go s) special
        ∙ (ap (onto (meant c ∷ [])) k ∙ sym (reads_step st c s ∙ rw (e, a) refl))))

escape_keeps :
    (st : Option State) (s : Text)
    → (reads st s ≡ none) ⊎ (reads st (escape_like_go s) ≡ reads st s)
escape_keeps none s = inl (reads-none s)
escape_keeps (some st) [] = inr (unfold escape_like_go in refl)
escape_keeps (some st) (c ∷ s) = elim (Bool-cases (is_special c)) [
  | inl special ↦ elim (special_next st c special) [
    | inl e ↦ inl (reads_dead st c s (rw e (reads-none s)))
    | inr (at, e, a) ↦ behind_special st c s special at e a (escape_keeps (some within_string) s)
  ]
  | inr plain ↦ behind_plain st c s plain (escape_keeps (next st c) s)
]

abbrev all_plain : Text → Bool
all_plain [] = true
all_plain (c ∷ s) = not (is_special c) && all_plain s

all_plain_lem : (s : Text) → all_plain s ≡ true → All (λ d. is_special d ≡ false) s
all_plain_lem [] h = tt
all_plain_lem (c ∷ s) h = (ground arith, all_plain_lem s (ground arith))

escape_char-plain : (c : ℕ) → All (λ d. is_special d ≡ false) (escape_char c)
escape_char-plain c = elim (Bool-cases (is_special c)) [
  | inl special ↦ elim (special_cases c special) [
    | inl e ↦ rw e (unfold escape_char in all_plain_lem (escape_char b'<') refl)
    | inr (inl e) ↦ rw e (unfold escape_char in all_plain_lem (escape_char b'>') refl)
    | inr (inr (inl e)) ↦ rw e (unfold escape_char in all_plain_lem (escape_char b'&') refl)
    | inr (inr (inr (inl e))) ↦ rw e (unfold escape_char in all_plain_lem (escape_char 0x2028) refl)
    | inr (inr (inr (inr e))) ↦ rw e (unfold escape_char in all_plain_lem (escape_char 0x2029) refl)
  ]
  | inr plain ↦ rw (plain_char c plain) (plain, tt)
]

escape_like_go-plain : (s : Text) → All (λ c. is_special c ≡ false) (escape_like_go s)
unfolding escape_like_go
escape_like_go-plain [] = tt
escape_like_go-plain (c ∷ s) =
    All-append (λ d. is_special d ≡ false) (escape_char c) (escape_like_go s) (escape_char-plain c)
      (escape_like_go-plain s)

-- The document that `to_go_json` writes reads as the one that serde_json gave it, structure and
-- strings, where that can be read at all, and has none of the characters `<`, `>` and `&` and of
-- the two line separators.
pub escape_like_go_lem :
    (s : Text) {tokens : List Token}
    → reads (some outside) s ≡ some tokens
    → (reads (some outside) (escape_like_go s) ≡ some tokens)
      × All (λ c. is_special c ≡ false) (escape_like_go s)
escape_like_go_lem s h =
    (elim (escape_keeps (some outside) s) [ inl e ↦ cc | inr e ↦ e ∙ h ], escape_like_go-plain s)
