-- ===== src/Helper/Run/Discreet.antt =====
-- What the test of one server in src/helper.rs adds to the stream that scripts read.
use mathlib.Core.List.{append-nil}
use speedtest_cli_rust.Base.{
  ℕ, zero, suc, Bool, false, not, ◌&&◌, Option, none, some, [], Result, ok, err, ltb, ◌≡◌, refl,
  ◌∙◌, inl, inr, Bool-cases,
}
use speedtest_cli_rust.Base.Text.{Text, codes}
use speedtest_cli_rust.Base.Float.{Float}
use speedtest_cli_rust.Output.{Output, Console, stream_event}
use speedtest_cli_rust.Output.Streams.{
  stdout_text, stdout_text-write_error, stdout_text-write_ui, stdout_text-write_debug,
  stdout_text-write_ui_blank, stdout_text-stream_event,
}
use speedtest_cli_rust.Spinner.{Spinner, draw}
use speedtest_cli_rust.Spinner.Streams.{draw-stdout, stop-stdout}
use speedtest_cli_rust.Defs.Ip.{GetIpResult}
use speedtest_cli_rust.Defs.Telemetry.{TelemetryLog}
use speedtest_cli_rust.Defs.Server.{Done}
use speedtest_cli_rust.Speedtest.Servers.{Server}
use speedtest_cli_rust.Helper.Run.{
  RunOptions, TestContext, Failed, Backend, Figures, report_failure,
}
use speedtest_cli_rust.Helper.Run.Turn.{
  blank_between, draw_frames, stopped, ping_spinner, console_of, transferred, pinged, ping_phase,
  download_phase, upload_phase,
}
use speedtest_cli_rust.Helper.Run.Closing.{simple_lines, shared, share}

-- The consoles agree on what scripts have read.
abbrev pub Same : Console → Console → Type 0
Same c c' = stdout_text c' ≡ stdout_text c

-- Measurements that say nothing to scripts, except that a transfer streams its progress where that is
-- asked for.
pub record IsDiscreet (float : Float) (out : Output) (b : Backend float) : Type 0 where
  pub probes : (log : TelemetryLog) (c : Console) → Same c (b.is_up log c).console
  pub informs :
      (log : TelemetryLog) (c : Console) {d : Done GetIpResult}
      → b.get_ip_info log c ≡ ok d
      → Same c d.console
  pub pings : (log : TelemetryLog) (c : Console) → Same c (b.ping_and_jitter log c).console
  pub downloads :
      out.stream ≡ false → (log : TelemetryLog) (c : Console) → Same c (b.download log c).console
  pub uploads :
      out.stream ≡ false → (log : TelemetryLog) (c : Console) → Same c (b.upload log c).console

draw_frames-Same : (n : ℕ) (s : Spinner) (c : Console) → Same c (draw_frames n s c).1
unfolding draw_frames
draw_frames-Same zero s c = refl
draw_frames-Same (suc n) s c =
    draw_frames-Same n (draw s [] c).0 (draw s [] c).1 ∙ draw-stdout s [] c

stopped-Same : (s : Option (Spinner × Console)) (t : Text) (c : Console) → Same c (stopped s t c)
stopped-Same none t c = refl
stopped-Same (some (s, _)) t c = stop-stdout s t c

pub report_failure-Same : (what e : Text) (c : Console) → Same c (report_failure what e c).1
unfolding report_failure
report_failure-Same what e c = stdout_text-write_error _ c

pub blank_between-Same :
    (out : Output) (several : Bool) (c : Console) → Same c (blank_between out several c)
blank_between-Same out several c = elim (Bool-cases (several && not out.quiet)) [
  | inl e ↦ rw e (stdout_text-write_ui_blank c)
  | inr e ↦ rw e refl
]

-- A phase or a failure that adds nothing.
abbrev pub Keeps : {A : Type 0} → Console → Result Failed (Done A) → Type 0
Keeps c (ok d) = Same c d.console
Keeps c (err (e, c')) = Same c c'

module _ (float : Float) (opts : RunOptions) (ctx : TestContext) (b : Backend float)
    (discreet : IsDiscreet float ctx.out b) (unstreamed : ctx.out.stream ≡ false) where
  open float use {F}

  event-Same : (t : Text) (c : Console) → Same c (stream_event ctx.out t c)
  event-Same t c = stdout_text-stream_event ctx.out t c ∙ rw unstreamed (append-nil (stdout_text c))

  transferred-Keeps :
      (name failure moved : Text) (c c' : Console) (log : TelemetryLog) (r : Result Text (F × ℕ))
      → Same c c'
      → Keeps c (transferred float opts ctx b name failure moved c' log r)
  transferred-Keeps name failure moved c c' log (err e) same =
      report_failure-Same failure e c' ∙ same
  transferred-Keeps name failure moved c c' log (ok (mbps, bytes)) same =
      stdout_text-write_debug ctx.out _ c' ∙ same

  pub download_phase-Keeps :
      (log : TelemetryLog) (c : Console) → Keeps c (download_phase float opts ctx b log c)
  unfolding download_phase
  download_phase-Keeps log c = elim (Bool-cases opts.no_download) [
    | inl e ↦ rw e (stdout_text-write_debug ctx.out _ _ ∙ stdout_text-write_ui ctx.out _ c)
    | inr e ↦ rw e (
        transferred-Keeps (codes "Download") _ _ c _ _ _ (
          discreet.downloads unstreamed log _
          ∙ (event-Same _ _ ∙ stdout_text-write_debug ctx.out _ c)))
  ]

  pub upload_phase-Keeps :
      (log : TelemetryLog) (c : Console) → Keeps c (upload_phase float opts ctx b log c)
  unfolding upload_phase
  upload_phase-Keeps log c = elim (Bool-cases opts.no_upload) [
    | inl e ↦ rw e (stdout_text-write_debug ctx.out _ _ ∙ stdout_text-write_ui ctx.out _ c)
    | inr e ↦ rw e (
        transferred-Keeps (codes "Upload") _ _ c _ _ _ (
          discreet.uploads unstreamed log _
          ∙ (event-Same _ _ ∙ stdout_text-write_debug ctx.out _ c)))
  ]

  console_of-Same :
      (c : Console) → Same c (console_of float opts ctx b (ping_spinner float opts ctx b c) c)
  console_of-Same c = elim (Bool-cases ctx.out.quiet) [
    | inl e ↦ rw e refl
    | inr e ↦ rw e (draw_frames-Same b.frames_drawn _ c)
  ]

  pinged-Keeps :
      (s : Option (Spinner × Console)) (c c' : Console) (log : TelemetryLog)
      (r : Result Text (F × F))
      → Same c c'
      → Keeps c (pinged float opts ctx b s c' log r)
  pinged-Keeps s c c' log (err e) same = report_failure-Same _ e _ ∙ (stopped-Same s [] c' ∙ same)
  pinged-Keeps s c c' log (ok (ping, jitter)) same =
      stopped-Same s _ _ ∙ (stdout_text-write_debug ctx.out _ c' ∙ same)

  pub ping_phase-Keeps :
      (log : TelemetryLog) (c : Console) → Keeps c (ping_phase float opts ctx b log c)
  unfolding ping_phase
  ping_phase-Keeps log c = pinged-Keeps (ping_spinner float opts ctx b c) c _ _ _ (
      discreet.pings log _
      ∙ (event-Same _ _ ∙ (stdout_text-write_debug ctx.out _ _ ∙ console_of-Same c)))

  module _ (interactive : opts.cli.simple ≡ false) where
    pub simple_lines-Same :
        (f : Figures float) (c : Console) → Same c (simple_lines float opts ctx b f c)
    unfolding simple_lines
    simple_lines-Same f c = rw interactive refl

    shared-Same : (r : Result Text Text) (c : Console) → Same c (shared float opts ctx b r c).1
    shared-Same (err e) c = stdout_text-write_error _ c
    shared-Same (ok link) c = elim (Bool-cases (not opts.cli.json && not opts.cli.csv)) [
      | inl e ↦ rw (e, interactive) (stdout_text-write_ui ctx.out _ c)
      | inr e ↦ rw e refl
    ]

    pub share-Same :
        (s : Server) (info : GetIpResult) (f : Figures float) (log : TelemetryLog) (c : Console)
        → Same c (share float opts ctx b s info f log c).1
    unfolding share
    share-Same s info f log c = elim (Bool-cases (ltb 0 ctx.level)) [
      | inl e ↦ rw e (shared-Same _ c)
      | inr e ↦ rw e refl
    ]
