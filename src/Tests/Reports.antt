-- ===== src/Tests/Reports.antt =====
-- Fields, documents and timestamps of a report: src/report.rs.
use speedtest_cli_rust.Base.{false, some, List, [], ◌∷◌, ◌≡◌, refl, ◌⊎◌, All}
use speedtest_cli_rust.Base.Text.{Text, codes}
use speedtest_cli_rust.Output.Sanitize.{sanitize}
use speedtest_cli_rust.Output.Sanitize.Laws.{Harmless}
use speedtest_cli_rust.Report.{starts_with_trigger, csv_text, escape_like_go}
use speedtest_cli_rust.Report.Fields.{csv_text-IsDefused}
use speedtest_cli_rust.Report.Json.{is_special, outside, Token, structure, meant, reads, next, adds}
use speedtest_cli_rust.Report.Json.Laws.{escape_like_go_lem}

abbrev formula : Text
formula = 9 ∷ codes "=cmd"

csv_text-IsDefused_example :
    Harmless (csv_text formula)
    × (starts_with_trigger (csv_text formula) ≡ false)
    × ((csv_text formula ≡ sanitize formula) ⊎ (csv_text formula ≡ b'\'' ∷ sanitize formula))
csv_text-IsDefused_example = csv_text-IsDefused formula

-- The document `"A&T"`.
abbrev document : Text
document = codes "\"A&T\""

abbrev tokens : List Token
tokens = structure b'"' ∷ meant b'A' ∷ meant b'&' ∷ meant b'T' ∷ structure b'"' ∷ []

document_read : reads (some outside) document ≡ some tokens
unfolding reads next adds
document_read = refl

escape_like_go_lem_example :
    (reads (some outside) (escape_like_go document) ≡ some tokens)
    × All (λ c. is_special c ≡ false) (escape_like_go document)
escape_like_go_lem_example = escape_like_go_lem document document_read
