-- ===== src/Tests/Texts.antt =====
-- Paths, addresses and hostile text: src/util.rs, src/output.rs, src/quote.rs and src/speedtest.rs.
use speedtest_cli_rust.Base.{true, List, [], ◌∷◌, ◌++◌, ◌≡◌, ◌↔◌}
use speedtest_cli_rust.Base.Text.{Text, codes}
use speedtest_cli_rust.Util.Path.{path_clean}
use speedtest_cli_rust.Util.Path.Meaning.{resolve, resolve-path_clean}
use speedtest_cli_rust.Output.Sanitize.{sanitize, is_hostile}
use speedtest_cli_rust.Output.Sanitize.Laws.{
  Harmless, Steers, IsDroppedOrKept, sanitize_lem, is_hostile_iff,
}
use speedtest_cli_rust.Quote.{Chunk, go_quote}
use speedtest_cli_rust.Quote.Shown.{Prints, go_quote-Harmless}

abbrev climbing : Text
climbing = codes "/a/../../b//c/."

resolve-path_clean_example :
    resolve (path_clean climbing) (codes "home" ∷ []) ≡ resolve climbing (codes "home" ∷ [])
resolve-path_clean_example = resolve-path_clean climbing (codes "home" ∷ [])

-- A name with an escape sequence in it.
abbrev escaping : Text
escaping = codes "A" ++ (0x1b ∷ codes "[31m")

sanitize_lem_example :
    IsDroppedOrKept 0x1b escaping
    × (sanitize (escaping ++ codes "B") ≡ sanitize escaping ++ sanitize (codes "B"))
    × (sanitize (sanitize escaping) ≡ sanitize escaping)
sanitize_lem_example = sanitize_lem 0x1b escaping (codes "B")

is_hostile_iff_example : (is_hostile 0x202e ≡ true) ↔ Steers 0x202e
is_hostile_iff_example = is_hostile_iff 0x202e

-- A line break, and a byte that starts no character.
abbrev broken : List Chunk
broken = record { valid = codes "a" ++ 10 ∷ []; invalid = 0xff ∷ [] } ∷ []

go_quote-Harmless_example : Prints (go_quote broken) × Harmless (go_quote broken)
go_quote-Harmless_example = go_quote-Harmless broken
