-- ===== src/Output.antt =====
-- `src/output.rs`: what a run prints and where, and the filter for text that came off the wire.
-- A console is the sequence of the writes made to it, oldest first; a write is not split, since
-- `_out` and `_err` hold the stream's lock and flush it.
pub mod Sanitize
pub mod Streams
use speedtest_cli_rust.Base.{Bool, true, false, not, List, [], ◌∷◌, ◌++◌, if◌then◌else◌}
use speedtest_cli_rust.Base.Text.{Text}

-- `struct Output`
pub record Output : Type 0 where
  pub debug : Bool
  pub quiet : Bool
  pub stream : Bool

-- `Output::default()`
abbrev pub default : Output
default = record { debug = false; quiet = false; stream = false }

pub data Write : Type 0 where
  to_stdout : Text → Write
  to_stderr : Text → Write

abbrev pub Console : Type 0
Console = List Write

-- `_out` and `_err`, behind `write_out!` and `write_error!`
abbrev pub write_out : Text → Console → Console
write_out t c = c ++ to_stdout t ∷ []

abbrev pub write_error : Text → Console → Console
write_error t c = c ++ to_stderr t ∷ []

-- `Output::stream_event`
unfoldable pub stream_event : Output → Text → Console → Console
stream_event o json_line c = if o.stream then write_out (json_line ++ b'\n' ∷ []) c else c

-- `Output::_ui`, behind `write_ui!`
unfoldable pub write_ui : Output → Text → Console → Console
write_ui o t c = if o.quiet then c else write_error t c

-- `Output::_dbg`, behind `write_debug!`
unfoldable pub write_debug : Output → Text → Console → Console
write_debug o t c = if not o.debug then c else write_error t c

-- `write_ui_blank`
unfoldable pub write_ui_blank : Console → Console
write_ui_blank = write_error (b'\n' ∷ [])
