-- ===== src/Report/Fields.antt =====
-- What the report fields of src/report.rs can hold.
use speedtest_cli_rust.Base.{false, List, [], ◌∷◌, ◌≡◌, refl, ◌⊎◌, inl, inr, map, All, Bool-cases}
use speedtest_cli_rust.Base.Text.{Text}
use speedtest_cli_rust.Base.Search.{binary_search_by}
use speedtest_cli_rust.Output.Sanitize.{sanitize, is_hostile, is_format_char}
use speedtest_cli_rust.Output.Sanitize.Laws.{Harmless, sanitize-Harmless}
use speedtest_cli_rust.Defs.Ip.{IpInfoResponse}
use speedtest_cli_rust.Report.{is_trigger, starts_with_trigger, csv_text, client}

quote_harmless : is_hostile b'\'' ≡ false
unfolding is_hostile is_format_char binary_search_by
quote_harmless = refl

-- A text field of the CSV report has no character that steers a terminal and does not start with
-- one that makes a spreadsheet read a formula; it is the sanitized text, or that behind one quote.
pub csv_text-IsDefused :
    (v : Text)
    → Harmless (csv_text v)
      × (starts_with_trigger (csv_text v) ≡ false)
      × ((csv_text v ≡ sanitize v) ⊎ (csv_text v ≡ b'\'' ∷ sanitize v))
unfolding csv_text
csv_text-IsDefused v = elim (Bool-cases (starts_with_trigger (sanitize v))) [
  | inl e ↦ rw e ((quote_harmless, sanitize-Harmless v), unfold is_trigger in refl, inr refl)
  | inr e ↦ rw e (sanitize-Harmless v, e, inl refl)
]

-- Every text field of a client block.
abbrev pub fields : IpInfoResponse → List Text
fields i =
    i.ip ∷ i.hostname ∷ i.city ∷ i.region ∷ i.country ∷ i.location ∷ i.organization ∷ i.postal
    ∷ i.timezone ∷ i.readme ∷ []

-- No field of a report's client block has a character that steers a terminal, and each is the
-- backend's field without those characters.
client-Harmless :
    (i : IpInfoResponse)
    → All Harmless (fields (client i)) × (fields (client i) ≡ map sanitize (fields i))
unfolding client
client-Harmless i = (
  (
    sanitize-Harmless i.ip,
    (
      sanitize-Harmless i.hostname,
      (
        sanitize-Harmless i.city,
        (
          sanitize-Harmless i.region,
          (
            sanitize-Harmless i.country,
            (
              sanitize-Harmless i.location,
              (
                sanitize-Harmless i.organization,
                (
                  sanitize-Harmless i.postal,
                  (sanitize-Harmless i.timezone, (sanitize-Harmless i.readme, tt)),
                ),
              ),
            ),
          ),
        ),
      ),
    ),
  ),
  refl,
)
