-- ===== src/Defs/Transfer/Shows.antt =====
-- What the download and the upload of src/defs/server.rs report, and what they write where.
use speedtest_cli_rust.Base.{
  ℕ, ◌+◌, ◌<◌, min, Option, none, some, ◌++◌, Result, ok, err, ◌≡◌, refl, sym, ap, ◌∙◌, ◌⊎◌, inl,
  inr, Bool-cases,
}
use speedtest_cli_rust.Base.Text.{Text, codes}
use speedtest_cli_rust.Base.Float.{Float}
use speedtest_cli_rust.Url.{UrlCrate}
use speedtest_cli_rust.Output.{Console}
use speedtest_cli_rust.Output.Streams.{stdout_text, stdout_text-write_ui}
use speedtest_cli_rust.Spinner.{Spinner}
use speedtest_cli_rust.Spinner.Streams.{stop-stdout}
use speedtest_cli_rust.Defs.Telemetry.{TelemetryLog}
use speedtest_cli_rust.Defs.Server.{Done, get_url}
use speedtest_cli_rust.Defs.Counter.{u64_mod, BytesCounter, total}
use speedtest_cli_rust.Defs.Counter.Ceiling
use speedtest_cli_rust.Defs.Counter.Ceiling.{taken, wrote}
use speedtest_cli_rust.Defs.Transfer.Phase.{
  Streams, phase, ramp_up, no_streams, download_counter, upload_counter,
}
use speedtest_cli_rust.Defs.Transfer.Phase.Laws.{
  moves, IsUpToDeadline, phase_lem, download_counter-total, upload_counter-total,
}
use speedtest_cli_rust.Defs.Transfer.Measure.{
  TransferOptions, wakes_of, ProgressEvent, shown, Course, transfer, download, downloaded, upload,
  uploaded, transfer_spinner, stop_spinner, finished, ended, told_of_payload,
}
use speedtest_cli_rust.Speedtest.Servers.{Server}
use speedtest_cli_rust.Defs.Transfer.Progress.{streamed, shown-stdout}

stop_spinner-stdout :
    (s : Option Spinner) (t : Text) (c : Console) → stdout_text (stop_spinner s t c) ≡ stdout_text c
stop_spinner-stdout none t c = refl
stop_spinner-stdout (some s) t c = stop-stdout s t c

module _ (float : Float) (to_string : ProgressEvent float → Text) (opts : TransferOptions) where
  open float use {F}

  -- What a phase that has come to its end reports: its streams' bytes, and on the stream that
  -- scripts read the progress events and nothing else.
  abbrev pub Tells : Text → BytesCounter → Course → Console → Done (Result Text (F × ℕ)) → Type 0
  Tells name c course before d =
      (end : Streams) × (phase opts.requests c course.meter (wakes_of course.happenings) ≡ some end)
      × ((mbps : F) × (d.value ≡ ok (mbps, total end.bytes.counter end.bytes.meter)))
      × (stdout_text d.console
          ≡ stdout_text before
            ++ streamed float to_string opts name course.instants.window course.happenings
                (ramp_up opts.requests (no_streams c course.meter)))

  transfer-Tells :
      (name prefix label took : Text) (c : BytesCounter) (course : Course) (console : Console)
      (log : TelemetryLog) {d : Done (Result Text (F × ℕ))}
      → transfer float to_string opts name prefix label took c course console log ≡ some d
      → Tells name c course console d
  unfolding transfer
  transfer-Tells name prefix label took c course console log {d} h =
      go (phase opts.requests c course.meter (wakes_of course.happenings)) refl h
    where
      go :
          (r : Option Streams)
          → phase opts.requests c course.meter (wakes_of course.happenings) ≡ r
          → ended float to_string opts label took course
              (shown float to_string opts name course.instants.window course.happenings
                (ramp_up opts.requests (no_streams c course.meter))
                (transfer_spinner course.ui_is_terminal opts.out prefix)
                console)
              log
              r
            ≡ some d
          → Tells name c course console d
      go none p k = cc
      go (some end) p k =
          let all =
            shown float to_string opts name course.instants.window course.happenings
              (ramp_up opts.requests (no_streams c course.meter))
              (transfer_spinner course.ui_is_terminal opts.out prefix) console in
          let same : finished float to_string opts label took course all log end ≡ d = cc in
          rw (sym same) (
            end,
            p,
            (_, refl),
            stop_spinner-stdout all.0 _ all.1
                ∙ shown-stdout float to_string opts name course.instants.window course.happenings
                    (ramp_up opts.requests (no_streams c course.meter))
                    (transfer_spinner course.ui_is_terminal opts.out prefix) console,
          )

  module _ (crate : UrlCrate) where
    -- The whole outcome of a test that reports `n` bytes: the server's address is no URL, and nothing
    -- is done; or the phase went on up to its deadline, and what scripts read of it are its progress
    -- events, if they asked for them.
    abbrev pub Reports :
        Text → BytesCounter → ℕ → Server → Course → Console → Done (Result Text (F × ℕ)) → Type 0
    Reports name c n s course before d =
        ((e : Text) × (get_url crate s ≡ err e)
          × (d.value ≡ err e)
          × (stdout_text d.console ≡ stdout_text before))
        ⊎ ((mbps : F) × (d.value ≡ ok (mbps, n))
            × IsUpToDeadline (wakes_of course.happenings)
            × (stdout_text d.console
                ≡ stdout_text before
                  ++ streamed float to_string opts name course.instants.window course.happenings
                      (ramp_up opts.requests (no_streams c course.meter))))

    -- `first` is the console that the phase itself starts with.
    Tells-Reports :
        (name : Text) (c : BytesCounter) (n : ℕ) (s : Server) (course : Course)
        (before first : Console) (d : Done (Result Text (F × ℕ)))
        → stdout_text first ≡ stdout_text before
        → (let end =
              Ceiling.run
                (record { counter = c; meter = course.meter })
                (moves (wakes_of course.happenings)) in
            total end.counter end.meter ≡ n)
        → Tells name c course first d
        → Reports name c n s course before d
    Tells-Reports name c n s course before first d same e (end, p, (mbps, v), out) =
        let (up, kept, started, b) =
          phase_lem opts.requests c course.meter (wakes_of course.happenings) p in
        inr (
          mbps,
          v ∙ ap (λ k. ok (mbps, k)) (ap (λ q. total q.counter q.meter) b ∙ e),
          up,
          out
              ∙ ap
                  (λ t.
                    t
                    ++ streamed float to_string opts name course.instants.window course.happenings
                        (ramp_up opts.requests (no_streams c course.meter)))
                  same,
        )

    told-stdout :
        (c : Console) → stdout_text (told_of_payload float to_string opts crate c) ≡ stdout_text c
    told-stdout c = elim (Bool-cases opts.no_prealloc) [
      | inl e ↦ rw e (stdout_text-write_ui opts.out _ c)
      | inr e ↦ rw e refl
    ]

    module _ (s : Server) (course : Course) (console : Console) (log : TelemetryLog)
        (h : taken (moves (wakes_of course.happenings)) < u64_mod)
        (k : course.meter.written + wrote (moves (wakes_of course.happenings)) < u64_mod) where
      -- A download reports, as long as the numbers fit 64 bits, the bytes that its streams received until
      -- they were stopped at the deadline, which alone ends it; or that the server's address is no URL. The stream that
      -- scripts read gets its progress events, if they are asked for, and nothing else.
      pub download-Reports :
          {d : Done (Result Text (F × ℕ))}
          → download float to_string opts crate s course console log ≡ some d
          → Reports
              (codes "download")
              (download_counter opts.use_mebi course.instants.begun)
              (taken (moves (wakes_of course.happenings)))
              s
              course
              console
              d
      unfolding download
      download-Reports {d} e = go (get_url crate s) refl e
        where
          go :
              (r : Result Text (UrlCrate.Url crate))
              → get_url crate s ≡ r
              → downloaded float to_string opts crate s course console log r ≡ some d
              → Reports
                  (codes "download")
                  (download_counter opts.use_mebi course.instants.begun)
                  (taken (moves (wakes_of course.happenings)))
                  s
                  course
                  console
                  d
          go (err x) p e =
              let same : record { value = err x; console = console; log = log } ≡ d = cc in
              rw (sym same) (inl (x, p, refl, refl))
          go (ok u) p e =
              let tells =
                transfer-Tells (codes "download") (codes "Downloading...  ") (codes "Download rate")
                  (codes "Download took ") (download_counter opts.use_mebi course.instants.begun)
                  course console log e in
              Tells-Reports (codes "download")
                (download_counter opts.use_mebi course.instants.begun)
                (taken (moves (wakes_of course.happenings))) s course console console d refl
                (download_counter-total course.meter (moves (wakes_of course.happenings)) h k
                  opts.use_mebi course.instants.begun)
                tells

      -- An upload reports the bytes of the frames taken, or those that the connections wrote if these
      -- are fewer, on the same conditions and with the same effect on what scripts read.
      pub upload-Reports :
          {d : Done (Result Text (F × ℕ))}
          → upload float to_string opts crate s course console log ≡ some d
          → Reports
              (codes "upload")
              (upload_counter opts.use_mebi opts.upload_size course.meter course.instants.begun)
              (min
                (taken (moves (wakes_of course.happenings)))
                (wrote (moves (wakes_of course.happenings))))
              s
              course
              console
              d
      unfolding upload
      upload-Reports {d} e = go (get_url crate s) refl e
        where
          go :
              (r : Result Text (UrlCrate.Url crate))
              → get_url crate s ≡ r
              → uploaded float to_string opts crate s course console log r ≡ some d
              → Reports
                  (codes "upload")
                  (upload_counter opts.use_mebi opts.upload_size course.meter course.instants.begun)
                  (min
                    (taken (moves (wakes_of course.happenings)))
                    (wrote (moves (wakes_of course.happenings))))
                  s
                  course
                  console
                  d
          go (err x) p e =
              let same : record {
                value = err x;
                console = (told_of_payload float to_string opts crate console);
                log = log;
              }
                  ≡ d =
                cc in
              rw (sym same) (inl (x, p, refl, told-stdout console))
          go (ok u) p e =
              let tells =
                transfer-Tells (codes "upload") (codes "Uploading...  ") (codes "Upload rate")
                  (codes "Upload took ")
                  (upload_counter opts.use_mebi opts.upload_size course.meter course.instants.begun)
                  course (told_of_payload float to_string opts crate console) log e in
              Tells-Reports (codes "upload")
                (upload_counter opts.use_mebi opts.upload_size course.meter course.instants.begun)
                (min (taken (moves (wakes_of course.happenings)))
                  (wrote (moves (wakes_of course.happenings))))
                s course console (told_of_payload float to_string opts crate console) d
                (told-stdout console)
                (upload_counter-total course.meter (moves (wakes_of course.happenings)) h k
                  opts.use_mebi opts.upload_size course.instants.begun)
                tells
