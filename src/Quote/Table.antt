-- ===== src/Quote/Table.antt =====
-- The table `GO_PRINTABLE` of src/quote.rs: the code points that Go's `strconv.IsPrint` accepts.
mod First
mod Second
mod Third
mod Fourth
use speedtest_cli_rust.Base.{◌++◌, List}
use speedtest_cli_rust.Base.Ranges.{Range}
use First.{first_rows}
use Second.{second_rows}
use Third.{third_rows}
use Fourth.{fourth_rows}

-- Shut, since it is long: proofs go by what is computed of it once.
unfoldable pub go_printable : List Range
go_printable = first_rows ++ (second_rows ++ (third_rows ++ fourth_rows))
