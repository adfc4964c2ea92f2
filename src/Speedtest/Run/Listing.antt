-- ===== src/Speedtest/Run/Listing.antt =====
-- What `--list` of src/speedtest.rs prints.
use mathlib.Core.List.{append_assoc, append-nil}
use speedtest_cli_rust.Base.{
  ℕ, zero, suc, ◌/◌, ◌≤◌, Bool, true, false, ◌&&◌, within, List, [], ◌∷◌, ◌++◌, ltb, All-append,
  ◌≡◌, refl, sym, ap, ◌∙◌, inl, inr, Bool-cases, arith,
}
use speedtest_cli_rust.Base.Text.{Text, codes}
use speedtest_cli_rust.Base.Int.{ℤ, pos, negsuc, show}
use speedtest_cli_rust.Base.Decimal.{digits_loop, decimal}
use speedtest_cli_rust.Base.Ranges.{in_ranges}
use speedtest_cli_rust.Url.{UrlCrate}
use speedtest_cli_rust.Output.{Output, Console, write_out}
use speedtest_cli_rust.Output.Streams.{stdout_text, stdout_text-write_out}
use speedtest_cli_rust.Output.Sanitize.{sanitize, is_hostile}
use speedtest_cli_rust.Output.Sanitize.Laws.{Harmless, sanitize-Harmless, is_format_char-in_ranges}
use speedtest_cli_rust.Defs.Server.{sponsor}
use speedtest_cli_rust.Defs.Server.Sponsor.{sponsor-stdout}
use speedtest_cli_rust.Speedtest.Servers.{Server}
use speedtest_cli_rust.Speedtest.Run.Settings.{line_end}
use speedtest_cli_rust.Speedtest.Run.Flow.{sponsor_msg, list_line, list_servers}

printable_ascii : (c : ℕ) → 0x20 ≤ c → c ≤ 0x7e → is_hostile c ≡ false
unfolding is_hostile in_ranges
printable_ascii c low high = ground (arith, is_format_char-in_ranges c)

digits_loop-Harmless : (fuel n : ℕ) (acc : Text) → Harmless acc → Harmless (digits_loop fuel n acc)
unfolding digits_loop
digits_loop-Harmless zero n acc h = h
digits_loop-Harmless (suc fuel) n acc h = elim (Bool-cases (ltb n 10)) [
  | inl small ↦ rw small (printable_ascii _ (omega arith) (ground arith), h)
  | inr big ↦
      rw big
        (digits_loop-Harmless fuel (n / 10) _ (printable_ascii _ (omega arith) (omega arith), h))
]

decimal-Harmless : (n : ℕ) → Harmless (decimal n)
unfolding decimal
decimal-Harmless n = digits_loop-Harmless (suc n) n [] tt

show-Harmless : (id : ℤ) → Harmless (show id)
unfolding show
show-Harmless (pos n) = decimal-Harmless n
show-Harmless (negsuc n) = (printable_ascii _ (omega arith) (omega arith), decimal-Harmless (suc n))

-- Text in which all characters are printable ASCII.
abbrev plain : Text → Bool
plain [] = true
plain (c ∷ s) = within 0x20 0x7e c && plain s

plain-Harmless : (s : Text) → plain s ≡ true → Harmless s
plain-Harmless [] h = tt
plain-Harmless (c ∷ s) h =
    (printable_ascii c (ground arith) (ground arith), plain-Harmless s (ground arith))

in_front : (label t : Text) → plain label ≡ true → Harmless t → Harmless (label ++ t)
in_front label t e h = All-append (λ c. is_hostile c ≡ false) label _ (plain-Harmless label e) h

sanitized_front : (s t : Text) → Harmless t → Harmless (sanitize s ++ t)
sanitized_front s t h =
    All-append (λ c. is_hostile c ≡ false) (sanitize s) _ (sanitize-Harmless s) h

sponsor_msg-Harmless : (by : Text) → Harmless (sponsor_msg by)
sponsor_msg-Harmless [] = tt
sponsor_msg-Harmless (c ∷ s) =
    in_front (codes " [Sponsor: ") _ refl
      (sanitized_front (c ∷ s) _ (plain-Harmless (codes "]") refl))

list_line-Harmless : (s : Server) (by : Text) → Harmless (list_line s by)
list_line-Harmless s by =
    All-append (λ c. is_hostile c ≡ false) (show s.id) _ (show-Harmless s.id)
      (in_front (codes ": ") _ refl (
        sanitized_front s.name _ (
          in_front (codes " (") _ refl
            (sanitized_front s.server _ (in_front (codes ") ") _ refl (sponsor_msg-Harmless by))))))

-- Lines, each with its end.
unfoldable pub lines_text : List Text → Text
lines_text [] = []
lines_text (l ∷ ls) = (l ++ line_end) ++ lines_text ls

-- The lines are one for each server, have its number, name and address, and are harmless.
unfoldable pub Entries : List Server → List Text → Type 0
Entries [] [] = Unit
Entries (s ∷ servers) (l ∷ ls) =
    ((by : Text) × (l ≡ list_line s by)) × Harmless l × Entries servers ls
Entries [] (_ ∷ _) = ⊥
Entries (_ ∷ _) [] = ⊥

module _ (crate : UrlCrate) (out : Output) where
  -- `--list` prints one line for each server, in their order, and no character in a line, whatever the
  -- list says, drives the terminal or ends the line: no server can forge a line of another.
  pub list_servers-Entries :
      (servers : List Server) (c : Console)
      → (ls : List Text) × Entries servers ls
        × (stdout_text (list_servers crate out servers c) ≡ stdout_text c ++ lines_text ls)
  unfolding list_servers Entries lines_text
  list_servers-Entries [] c = ([], tt, sym (append-nil (stdout_text c)))
  list_servers-Entries (s ∷ servers) c =
      let (by, c') = sponsor crate out s c in
      let l = list_line s by in
      let (ls, entries, rest) = list_servers-Entries servers (write_out (l ++ line_end) c') in
      (
        l ∷ ls,
        ((by, refl), list_line-Harmless s by, entries),
        rest
            ∙ (ap (λ t. t ++ lines_text ls)
                  (stdout_text-write_out (l ++ line_end) c'
                    ∙ ap (λ t. t ++ (l ++ line_end)) (sponsor-stdout crate out s c))
                ∙ append_assoc (stdout_text c) (l ++ line_end) (lines_text ls)),
      )
