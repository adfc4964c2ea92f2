-- ===== src/Spinner.antt =====
-- `Spinner` of src/spinner.rs: what it draws on stderr, by the number of frames that its task draws
-- before it is stopped. The task is awaited by `stop`, so that nothing is drawn behind it.
pub mod Streams
use speedtest_cli_rust.Base.{
  ℕ, ◌+◌, ◌%◌, ◌^◌, Bool, true, false, not, ◌&&◌, List, [], ◌∷◌, ◌++◌, if◌then◌else◌, get_or,
}
use speedtest_cli_rust.Base.Text.{Text, codes}
use speedtest_cli_rust.Output.{Output, Console, write_error}

-- `FRAMES`
abbrev pub frames : List ℕ
frames =
    0x280b ∷ 0x2819 ∷ 0x2839 ∷ 0x2838 ∷ 0x283c ∷ 0x2834 ∷ 0x2826 ∷ 0x2827 ∷ 0x2807 ∷ 0x280f ∷ []

-- A running spinner, with the number of the next frame.
pub record Spinner : Type 0 where
  pub animated : Bool
  pub prefix : Text
  pub frame : ℕ

-- `Spinner::start`
unfoldable pub start : Bool → Output → Text → Spinner
start ui_is_terminal out prefix = record {
  animated = ui_is_terminal && not out.quiet;
  prefix = prefix;
  frame = 0;
}

-- Back to the start of the line, which is cleared.
abbrev pub clear_line : Text
clear_line = 0x0d ∷ 0x1b ∷ codes "[2K"

-- One round of the animation: a frame behind the prefix, and the suffix of that moment.
unfoldable pub draw : Spinner → Text → Console → Spinner × Console
draw s suffix console =
    if s.animated
    then (
      record s { frame = (s.frame + 1) % 2 ^ 64 },
      write_error (clear_line ++ (s.prefix ++ (get_or frames (s.frame % 10) 0 ∷ suffix))) console,
    )
    else (s, console)

-- `Spinner::stop`
unfoldable pub stop : Spinner → Text → Console → Console
stop s final_msg console =
    write_error final_msg (if s.animated then write_error clear_line console else console)
