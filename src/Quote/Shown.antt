-- ===== src/Quote/Shown.antt =====
-- What `GoQuote` of src/quote.rs writes.
use speedtest_cli_rust.Base.{
  ℕ, zero, suc, ◌/◌, ◌%◌, ◌<◌, Bool, true, false, ◌||◌, List, [], ◌∷◌, ◌++◌, ◌≡◌, refl, ltb, ◌==◌,
  within, All, All-append, All_imp, arith, if◌then◌else◌,
}
use speedtest_cli_rust.Base.Text.{Text, Bytes}
use speedtest_cli_rust.Output.Sanitize.{is_hostile}
use speedtest_cli_rust.Output.Sanitize.Laws.{Harmless}
use speedtest_cli_rust.Quote.{
  is_print, hex_digit, hex, escape, write_escaped, Chunk, write_valid, write_invalid, write_chunks,
  go_quote,
}
use speedtest_cli_rust.Quote.Printable.{is_print-harmless, ascii-is_print}

abbrev pub Prints : Text → Type 0
Prints = All (λ c. is_print c ≡ true)

hex_digit-prints : (d : ℕ) → d < 16 → is_print (hex_digit d) ≡ true
hex_digit-prints d h = ascii-is_print (hex_digit d) (ground arith)

hex-Prints : (n x : ℕ) → Prints (hex n x)
unfolding hex
hex-Prints zero x = tt
hex-Prints (suc n) x =
    All-append (λ c. is_print c ≡ true) (hex n (x / 16)) (hex_digit (x % 16) ∷ [])
      (hex-Prints n (x / 16)) (hex_digit-prints (x % 16) (omega arith), tt)

escape-Prints : (c : ℕ) → within 0x20 0x7e c ≡ true → Prints (escape c)
escape-Prints c h = (ascii-is_print b'\\' refl, (ascii-is_print c h, tt))

escape-hex-Prints : (c n x : ℕ) → within 0x20 0x7e c ≡ true → Prints (escape c ++ hex n x)
escape-hex-Prints c n x h =
    All-append (λ d. is_print d ≡ true) (escape c) (hex n x) (escape-Prints c h) (hex-Prints n x)

if-Prints : (b : Bool) (s t : Text) → Prints t → (b ≡ true → Prints s) → Prints (if b then s else t)
if-Prints true s t ht hs = hs refl
if-Prints false s t ht hs = ht

quote_or_slash : (c : ℕ) → (c == b'"' || c == b'\\') ≡ true → within 0x20 0x7e c ≡ true
quote_or_slash c h = ground arith

write_escaped-Prints : (c : ℕ) → Prints (write_escaped c)
unfolding write_escaped
write_escaped-Prints c =
    if-Prints (c == b'"' || c == b'\\') _ _
      (if-Prints (is_print c) _ _
        (if-Prints (c == 0x07) _ _
          (if-Prints (c == 0x08) _ _
            (if-Prints (c == 0x0c) _ _
              (if-Prints (c == b'\n') _ _
                (if-Prints (c == b'\r') _ _
                  (if-Prints (c == b'\t') _ _
                    (if-Prints (c == 0x0b) _ _
                      (if-Prints (ltb c b' ' || c == 0x7f) _ _
                        (if-Prints (ltb c 0x10000) _ _ (escape-hex-Prints b'U' 8 c refl)
                          (λ h. escape-hex-Prints b'u' 4 c refl))
                        (λ h. escape-hex-Prints b'x' 2 c refl))
                      (λ h. escape-Prints b'v' refl))
                    (λ h. escape-Prints b't' refl))
                  (λ h. escape-Prints b'r' refl))
                (λ h. escape-Prints b'n' refl))
              (λ h. escape-Prints b'f' refl))
            (λ h. escape-Prints b'b' refl))
          (λ h. escape-Prints b'a' refl))
        (λ h. (h, tt)))
      (λ h. escape-Prints c (quote_or_slash c h))

write_valid-Prints : (s : Text) → Prints (write_valid s)
unfolding write_valid
write_valid-Prints [] = tt
write_valid-Prints (c ∷ s) =
    All-append (λ d. is_print d ≡ true) (write_escaped c) (write_valid s) (write_escaped-Prints c)
      (write_valid-Prints s)

write_invalid-Prints : (bs : Bytes) → Prints (write_invalid bs)
unfolding write_invalid
write_invalid-Prints [] = tt
write_invalid-Prints (b ∷ bs) =
    All-append (λ d. is_print d ≡ true) (escape b'x' ++ hex 2 b) (write_invalid bs)
      (escape-hex-Prints b'x' 2 b refl) (write_invalid-Prints bs)

write_chunks-Prints : (ks : List Chunk) → Prints (write_chunks ks)
unfolding write_chunks
write_chunks-Prints [] = tt
write_chunks-Prints (k ∷ ks) =
    All-append (λ d. is_print d ≡ true) (write_valid k.valid)
      (write_invalid k.invalid ++ write_chunks ks) (write_valid-Prints k.valid)
      (All-append (λ d. is_print d ≡ true) (write_invalid k.invalid) (write_chunks ks)
        (write_invalid-Prints k.invalid) (write_chunks-Prints ks))

go_quote-Prints : (ks : List Chunk) → Prints (go_quote ks)
unfolding go_quote
go_quote-Prints ks =
    let quote = ascii-is_print b'"' refl in
    (
      quote,
      All-append (λ d. is_print d ≡ true) (write_chunks ks) (b'"' ∷ []) (write_chunks-Prints ks)
          (quote, tt),
    )

-- Whatever the bytes are, every character of their quoted form is one that Go prints as it is, and
-- none of them steers a terminal or ends a line.
pub go_quote-Harmless : (ks : List Chunk) → Prints (go_quote ks) × Harmless (go_quote ks)
go_quote-Harmless ks = (
  go_quote-Prints ks,
  All_imp (λ c. is_print c ≡ true) (λ c. is_hostile c ≡ false) (go_quote ks) is_print-harmless
      (go_quote-Prints ks),
)
