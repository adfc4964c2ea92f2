-- ===== src/Spinner/Streams.antt =====
-- The spinner of src/spinner.rs keeps off the stream that scripts read.
use speedtest_cli_rust.Base.{◌≡◌, refl, ◌∙◌, inl, inr, Bool-cases}
use speedtest_cli_rust.Base.Text.{Text}
use speedtest_cli_rust.Output.{Console}
use speedtest_cli_rust.Output.Streams.{stdout_text, stdout_text-write_error}
use speedtest_cli_rust.Spinner.{Spinner, draw, stop}

pub draw-stdout :
    (s : Spinner) (t : Text) (c : Console) → stdout_text (draw s t c).1 ≡ stdout_text c
unfolding draw
draw-stdout s t c = elim (Bool-cases s.animated) [
  | inl e ↦ rw e (stdout_text-write_error _ c)
  | inr e ↦ rw e refl
]

pub stop-stdout : (s : Spinner) (t : Text) (c : Console) → stdout_text (stop s t c) ≡ stdout_text c
unfolding stop
stop-stdout s t c = elim (Bool-cases s.animated) [
  | inl e ↦ rw e (stdout_text-write_error t _ ∙ stdout_text-write_error _ c)
  | inr e ↦ rw e (stdout_text-write_error t c)
]
