-- ===== src/Output/Sanitize.antt =====
-- `sanitize`, `is_hostile` and `is_format_char` of src/output.rs.
pub mod Laws
use speedtest_cli_rust.Base.{
  ℕ, Bool, true, false, not, ◌||◌, List, [], ◌∷◌, ltb, ◌==◌, within, keep, length, is_ok,
}
use speedtest_cli_rust.Base.Text.{Text}
use speedtest_cli_rust.Base.Search.{binary_search_by}
use speedtest_cli_rust.Base.Ranges.{Range, entry, range_order}

-- The table of general category Cf.
abbrev pub format_table : List Range
format_table =
    (0x00ad, 0x00ad)
    ∷ (0x0600, 0x0605)
    ∷ (0x061c, 0x061c)
    ∷ (0x06dd, 0x06dd)
    ∷ (0x070f, 0x070f)
    ∷ (0x0890, 0x0891)
    ∷ (0x08e2, 0x08e2)
    ∷ (0x180e, 0x180e)
    ∷ (0x200b, 0x200f)
    ∷ (0x202a, 0x202e)
    ∷ (0x2060, 0x206f)
    ∷ (0xfeff, 0xfeff)
    ∷ (0xfff9, 0xfffb)
    ∷ (0x110bd, 0x110bd)
    ∷ (0x110cd, 0x110cd)
    ∷ (0x13430, 0x1343f)
    ∷ (0x1bca0, 0x1bca3)
    ∷ (0x1d173, 0x1d17a)
    ∷ (0xe0001, 0xe0001)
    ∷ (0xe0020, 0xe007f)
    ∷ []

unfoldable pub is_format_char : ℕ → Bool
unfolding binary_search_by
is_format_char c =
    is_ok (binary_search_by (λ i. range_order c (entry format_table i)) (length format_table))

unfoldable pub is_hostile : ℕ → Bool
is_hostile c =
    ltb c 0x20
    || c == 0x7f
    || within 0x80 0x9f c
    || c == 0x2028
    || c == 0x2029
    || within 0xe0000 0xe007f c
    || is_format_char c

unfoldable pub sanitize : Text → Text
sanitize s = keep (λ c. not (is_hostile c)) s
