-- ===== src/Main.antt =====
-- `main` of src/main.rs, and the exit code of the process. clap's parsing is an argument.
pub mod Laws
use speedtest_cli_rust.Base.{
  ℕ, Bool, Option, none, some, [], ◌∷◌, ◌++◌, Result, ok, err, if◌then◌else◌,
}
use speedtest_cli_rust.Base.Text.{Text, codes}
use speedtest_cli_rust.Base.Float.{Float}
use speedtest_cli_rust.Url.{UrlCrate}
use speedtest_cli_rust.Output.{Console, write_out, write_error}
use speedtest_cli_rust.Output.Sanitize.{sanitize}
use speedtest_cli_rust.Cli.{ClapError, go_usage_error}
use speedtest_cli_rust.Speedtest.Run.{Args, failed, exited, panicked, Stopped, World}
use speedtest_cli_rust.Speedtest.Run.Settings.{Build}
use speedtest_cli_rust.Speedtest.Run.Flow.{run}

-- The exit code, and what the process has printed.
abbrev pub Exit : Type 0
Exit = ℕ × Console

abbrev pub line_end : Text
line_end = b'\n' ∷ []

abbrev pub terminated : Text → Text
terminated message = codes "Terminated due to error: " ++ (message ++ line_end)

-- `ClapError::print` and `use_stderr`: what clap shows of an error, and whether on stderr.
pub record Shown : Type 0 where
  pub rendered : ClapError → Text
  pub use_stderr : ClapError → Bool

abbrev pub printed : Shown → ClapError → Console → Console
printed shown e console =
    if shown.use_stderr e
    then write_error (shown.rendered e) console
    else write_out (shown.rendered e) console

abbrev pub usage : Shown → ClapError → Console → Option Text → Exit
usage shown e console (some message) = (
  1,
  write_error (terminated message)
      (write_out (codes "Incorrect Usage: " ++ (message ++ codes "\n\n")) console),
)
usage shown e console none = (if shown.use_stderr e then 1 else 0, printed shown e console)

-- How the process ends behind a run; a panic aborts the process, whose code is then that of SIGABRT.
abbrev pub ended : Result Stopped Console → Exit
ended (ok console) = (0, console)
ended (err (failed e, console)) = (1, write_error (terminated (sanitize e)) console)
ended (err (exited, console)) = (1, console)
ended (err (panicked, console)) = (134, console)

module _ (float : Float) (crate : UrlCrate) (Client : Type 0) (w : World float crate Client) where
  unfoldable pub main : Build → Shown → Result ClapError Args → Console → Exit
  main build shown (err e) console = usage shown e console (go_usage_error w.debug e)
  main build shown (ok cli) console = ended (run float crate Client w build cli console)
