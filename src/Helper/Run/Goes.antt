-- ===== src/Helper/Run/Goes.antt =====
-- The test of a server in src/helper.rs adds nothing to what scripts read.
use speedtest_cli_rust.Base.{
  Bool, true, false, not, ◌||◌, Result, ok, err, ◌>>=◌, if◌then◌else◌, ◌≡◌, refl, ap, ◌∙◌, inl, inr,
  Bool-cases,
}
use speedtest_cli_rust.Base.Text.{Text}
use speedtest_cli_rust.Base.Float.{Float}
use speedtest_cli_rust.Url.{UrlCrate}
use speedtest_cli_rust.Output.{Console}
use speedtest_cli_rust.Output.Streams.{stdout_text, stdout_text-write_ui, stdout_text-write_debug}
use speedtest_cli_rust.Defs.Ip.{GetIpResult}
use speedtest_cli_rust.Defs.Telemetry.{TelemetryLog}
use speedtest_cli_rust.Defs.Server.{Done, ServerStatus, get_url}
use speedtest_cli_rust.Defs.Server.Sponsor.{sponsor-stdout}
use speedtest_cli_rust.Speedtest.Servers.{Server}
use speedtest_cli_rust.Helper.Run.{RunOptions, TestContext, Failed, Backend, Progress, Figures}
use speedtest_cli_rust.Helper.Run.Turn.{ping_phase, download_phase, upload_phase}
use speedtest_cli_rust.Helper.Run.Closing.{report}
use speedtest_cli_rust.Helper.Run.Loop.{
  concluded, measured, informed, probed, introduced, addressed, test_server,
}
use speedtest_cli_rust.Helper.Run.Discreet.{
  Same, IsDiscreet, Keeps, report_failure-Same, blank_between-Same, download_phase-Keeps,
  upload_phase-Keeps, ping_phase-Keeps, simple_lines-Same, share-Same,
}

-- Progress, or a failure, that adds nothing to what scripts read.
abbrev pub Goes : {float : Float} → Console → Result Failed (Progress float) → Type 0
Goes c (ok p) = Same c p.console
Goes c (err (e, c')) = Same c c'

Goes-bind :
    {float : Float} {A : Type 0} (c : Console) (m : Result Failed (Done A))
    (next : Done A → Result Failed (Progress float))
    → Keeps c m
    → ((d : Done A) → Same c d.console → Goes c (next d))
    → Goes c (m >>= next)
Goes-bind c (err (e, c')) next keeps go = keeps
Goes-bind c (ok d) next keeps go = go d keeps

Keeps-from :
    {A : Type 0} (c c' : Console) (m : Result Failed (Done A)) → Same c c' → Keeps c' m → Keeps c m
Keeps-from c c' (ok d) same keeps = keeps ∙ same
Keeps-from c c' (err (e, c'')) same keeps = keeps ∙ same

pub Goes-from :
    {float : Float} (c c' : Console) (r : Result Failed (Progress float))
    → Same c c'
    → Goes c' r
    → Goes c r
Goes-from c c' (ok p) same go = go ∙ same
Goes-from c c' (err (e, c'')) same go = go ∙ same

if_Goes :
    {float : Float} (c : Console) (b : Bool) (x y : Result Failed (Progress float))
    → Goes c x
    → Goes c y
    → Goes c (if b then x else y)
if_Goes c true x y yes_case no_case = yes_case
if_Goes c false x y yes_case no_case = no_case

pub if_Same : (b : Bool) (c x y : Console) → Same c x → Same c y → Same c (if b then x else y)
if_Same true c x y left right = left
if_Same false c x y left right = right

module _ (float : Float) (opts : RunOptions) (ctx : TestContext)
    (unstreamed : ctx.out.stream ≡ false) (interactive : opts.cli.simple ≡ false) where
  open float use {F}

  module _ (b : Backend float) (discreet : IsDiscreet float ctx.out b) (several : Bool)
      (s : Server) where
    report-console :
        (status : ServerStatus) (info : GetIpResult) (f : Figures float) (link : Text) (c : Console)
        (p : Progress float)
        → (report float opts ctx b s status info f link c p).console ≡ c
    unfolding report
    report-console status info f link c p = elim (Bool-cases opts.cli.csv) [
      | inl e ↦ rw e refl
      | inr e ↦ elim (Bool-cases (opts.cli.json || opts.cli.json_stream)) [
        | inl k ↦ rw (e, k) refl
        | inr k ↦ rw (e, k) refl
      ]
    ]

    concluded-Same :
        (status : ServerStatus) (info : GetIpResult) (log : TelemetryLog) (c : Console)
        (p : Progress float) (f : Figures float)
        → Same c (concluded float opts ctx b several s status info log c p f).console
    concluded-Same status info log c p f =
        ap stdout_text (report-console status info f _ _ p)
        ∙ (blank_between-Same ctx.out several _
            ∙ (share-Same float opts ctx b discreet unstreamed interactive s info f log _
                ∙ simple_lines-Same float opts ctx b discreet unstreamed interactive f c))

    measured-Goes :
        (status : ServerStatus) (p : Progress float) (info : Done GetIpResult)
        → Goes info.console (measured float opts ctx b several s status p info)
    unfolding measured
    measured-Goes status p info =
        Goes-bind info.console (ping_phase float opts ctx b info.log info.console) _
          (ping_phase-Keeps float opts ctx b discreet unstreamed info.log info.console)
          λ pinged first.
            Goes-bind info.console (download_phase float opts ctx b pinged.log pinged.console) _
              (Keeps-from info.console pinged.console _ first (
                download_phase-Keeps float opts ctx b discreet unstreamed pinged.log
                  pinged.console))
              λ down second.
                Goes-bind info.console (upload_phase float opts ctx b down.log down.console) _
                  (Keeps-from info.console down.console _ second
                    (upload_phase-Keeps float opts ctx b discreet unstreamed down.log down.console))
                  λ up third. concluded-Same status info.value up.log up.console p _ ∙ third

    informed-Goes :
        (status : ServerStatus) (c : Console) (p : Progress float)
        (r : Result Text (Done GetIpResult))
        → ((d : Done GetIpResult) → r ≡ ok d → Same c d.console)
        → Goes c (informed float opts ctx b several s status c p r)
    informed-Goes status c p (err e) keeps = report_failure-Same _ e c
    informed-Goes status c p (ok d) keeps =
        Goes-from c _ (measured float opts ctx b several s status p _)
          (stdout_text-write_debug ctx.out _ _
            ∙ (stdout_text-write_ui ctx.out _ d.console ∙ keeps d refl))
          (measured-Goes status p _)

    probed-Goes :
        (hostname : Text) (p : Progress float) (c : Console) (d : Done ServerStatus)
        → Same c d.console
        → Goes c (probed float opts ctx b several s hostname p d)
    probed-Goes hostname p c d same =
        if_Goes c (not d.value.up) _ _
          (blank_between-Same ctx.out several _ ∙ (stdout_text-write_ui ctx.out _ d.console ∙ same))
          (Goes-from c _ (informed float opts ctx b several s d.value _ p (b.get_ip_info d.log _))
            (stdout_text-write_debug ctx.out _ d.console ∙ same)
            (informed-Goes d.value _ p _ (λ found. discreet.informs d.log _)))

    module _ (crate : UrlCrate) where
      open crate use {Url}

      introduced-Same :
          (hostname : Text) (c : Console)
          → Same c (introduced float opts ctx b several s crate hostname c)
      introduced-Same hostname c =
          if_Same _ c _ _
            (sponsor-stdout crate ctx.out s _
              ∙ (stdout_text-write_debug ctx.out _ _ ∙ stdout_text-write_ui ctx.out _ c))
            (stdout_text-write_ui ctx.out _ _
              ∙ (sponsor-stdout crate ctx.out s _
                  ∙ (stdout_text-write_debug ctx.out _ _ ∙ stdout_text-write_ui ctx.out _ c)))

      addressed-Goes :
          (p : Progress float) (r : Result Text Url)
          → Goes p.console (addressed float opts ctx b several s crate p r)
      addressed-Goes p (err e) = report_failure-Same _ e p.console
      addressed-Goes p (ok u) =
          probed-Goes _ p p.console _ (discreet.probes _ _ ∙ introduced-Same _ p.console)

      pub test_server-Goes :
          (p : Progress float) → Goes p.console (test_server float opts ctx b several s crate p)
      unfolding test_server
      test_server-Goes p = addressed-Goes p (get_url crate s)
