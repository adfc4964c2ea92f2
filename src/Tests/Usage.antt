-- ===== src/Tests/Usage.antt =====
-- The delimiter and usage errors: src/cli.rs.
use speedtest_cli_rust.Base.{true, false, some, none, Option, ◌∷◌, ◌++◌, ◌≡◌, refl}
use speedtest_cli_rust.Base.Text.{Text, codes}
use speedtest_cli_rust.Cli.{
  Cli, is_i128, digits_from, magnitude, silent, go_usage_error, usage_of, refused, invalid,
  ends_name, context, option, first_piece, trim_dashes, ClapError, ContextKind, ContextValue,
  unknown_argument, value_validation, invalid_arg, invalid_value_of, string,
}

-- The `Debug` form of a text with nothing to escape in it.
abbrev debug : Text → Text
debug s = b'"' ∷ (s ++ codes "\"")

abbrev with_tabs : Cli
with_tabs = record {
  simple = false;
  json = false;
  csv = true;
  json_stream = false;
  csv_delimiter = codes "\t";
  csv_header = false;
}

abbrev bogus : ContextKind → Option ContextValue
bogus invalid_arg = some (string (codes "--bogus=1"))
bogus invalid_value_of = none

abbrev bogus_option : ClapError
bogus_option = record { kind = unknown_argument; get = bogus }

abbrev minus_one : ContextKind → Option ContextValue
minus_one invalid_arg = some (string (codes "--duration <DURATION>"))
minus_one invalid_value_of = some (string (codes "-1"))

-- A number out of range is reported as one.
out_of_range :
    go_usage_error debug (record { kind = value_validation; get = minus_one })
    ≡ some (codes "invalid value \"-1\" for flag -duration: value out of range")
unfolding go_usage_error usage_of refused invalid context option first_piece ends_name trim_dashes
    is_i128 magnitude digits_from
out_of_range = refl

tabs_are_silent : silent with_tabs ≡ true
unfolding silent
tabs_are_silent = refl
