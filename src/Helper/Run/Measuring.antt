-- ===== src/Helper/Run/Measuring.antt =====
-- The backend of a run of src/helper.rs that consists of the measurements of src/defs/server.rs.
use mathlib.Core.List.{append-nil}
use speedtest_cli_rust.Base.{ℕ, ◌+◌, ◌<◌, Bool, false, some, List, Result, ◌≡◌, ◌∙◌, inl, inr}
use speedtest_cli_rust.Base.Text.{Text, Bytes}
use speedtest_cli_rust.Base.Float.{Float}
use speedtest_cli_rust.Url.{UrlCrate}
use speedtest_cli_rust.Output.{Console}
use speedtest_cli_rust.Output.Streams.{stdout_text}
use speedtest_cli_rust.Quote.{Chunk}
use speedtest_cli_rust.Defs.Ip.{GetIpResult}
use speedtest_cli_rust.Defs.Telemetry.{TelemetryLog}
use speedtest_cli_rust.Defs.Counter.{u64_mod, BytesCounter}
use speedtest_cli_rust.Defs.Counter.Ceiling.{taken, wrote}
use speedtest_cli_rust.Defs.Server.{Done, Answer, is_up, get_ip_info}
use speedtest_cli_rust.Defs.Server.Probe.{is_up_lem, get_ip_info-Informs}
use speedtest_cli_rust.Defs.Server.Pings.{Peer, Timed, icmp_ping_and_jitter}
use speedtest_cli_rust.Defs.Server.Fallback.{icmp_ping_and_jitter-Falls}
use speedtest_cli_rust.Defs.Transfer.Phase.Laws.{moves}
use speedtest_cli_rust.Defs.Transfer.Measure.{
  TransferOptions, ProgressEvent, Course, wakes_of, download, upload,
}
use speedtest_cli_rust.Defs.Transfer.Shows.{Reports, download-Reports, upload-Reports}
use speedtest_cli_rust.Speedtest.Servers.{Server}
use speedtest_cli_rust.Helper.Run.{Backend, TelemetryExtra, ping_count}
use speedtest_cli_rust.Helper.Run.Discreet.{Same, IsDiscreet}

-- What a run asks of the world at a server: the client's answers, serde_json, name resolution, ICMP,
-- the courses of the two transfers, the telemetry server and the texts of times.
pub record World (float : Float) (crate : UrlCrate) : Type 0 where
  pub utf8_chunks : Bytes → List Chunk
  pub lossy : Bytes → Text
  pub from_slice : Bytes → Result Text GetIpResult
  pub no_info : GetIpResult
  pub get_prefix : UrlCrate.Url crate → Result Text Answer
  pub get_bytes : UrlCrate.Url crate → Result Text (ℕ × Bytes)
  pub get_drained : UrlCrate.Url crate → ℕ → Timed float
  pub resolve_host : Text → Result Text Peer
  pub icmp_rtts : Peer → Result Text (List (Float.F float))
  pub to_string : ProgressEvent float → Text
  pub down : Course
  pub up : Course
  pub send_telemetry :
      GetIpResult
      → Float.F float
      → Float.F float
      → Float.F float
      → Float.F float
      → Text
      → TelemetryExtra
      → Result Text Text
  pub ip_of : GetIpResult → Text
  pub elapsed : Text
  pub stamp : Text
  pub timestamp : Text
  pub took : Text → Text
  pub ui_is_terminal : Bool
  pub frames_drawn : ℕ

module _ (float : Float) (crate : UrlCrate) (w : World float crate) (topts : TransferOptions)
    (distance : Text) (no_icmp : Bool) (s : Server) where
  open float use {F}

  -- What the transfers come to in their courses, which are those of whole phases.
  abbrev pub Transfer : Type 0
  Transfer = TelemetryLog → Console → Done (Result Text (F × ℕ))

  module _ (down up : Transfer) where
    unfoldable pub measuring : Backend float
    measuring = record {
      is_up = λ log c. is_up crate topts.out w.utf8_chunks w.elapsed w.stamp s w.get_prefix log c;
      get_ip_info = λ log c.
          get_ip_info crate topts.out w.utf8_chunks w.elapsed w.stamp w.from_slice w.lossy w.no_info
            s w.get_bytes distance log c;
      ping_and_jitter = λ log c.
          icmp_ping_and_jitter float crate topts.out w.stamp w.elapsed w.resolve_host w.icmp_rtts s
            w.get_drained ping_count log no_icmp c;
      download = down;
      upload = up;
      send_telemetry = w.send_telemetry;
      ui_is_terminal = w.ui_is_terminal;
      frames_drawn = w.frames_drawn;
      took = w.took;
      timestamp = w.timestamp;
      ip_of = w.ip_of;
    }

    quiet_stream :
        (name : Text) (c : BytesCounter) (n : ℕ) (course : Course) (before : Console)
        (d : Done (Result Text (F × ℕ)))
        → topts.out.stream ≡ false
        → Reports float w.to_string topts crate name c n s course before d
        → Same before d.console
    quiet_stream name c n course before d still (inl (e, p, v, out)) = out
    quiet_stream name c n course before d still (inr (mbps, v, ends, out)) =
        out ∙ rw still (append-nil (stdout_text before))

    -- The program's own measurements are what a run takes for granted of its backend: they say nothing
    -- to scripts, but for the progress of a transfer that is streamed.
    pub measuring-IsDiscreet :
        ((log : TelemetryLog) (c : Console)
          → download float w.to_string topts crate s w.down c log ≡ some (down log c))
        → ((log : TelemetryLog) (c : Console)
            → upload float w.to_string topts crate s w.up c log ≡ some (up log c))
        → taken (moves (wakes_of w.down.happenings)) < u64_mod
        → w.down.meter.written + wrote (moves (wakes_of w.down.happenings)) < u64_mod
        → taken (moves (wakes_of w.up.happenings)) < u64_mod
        → w.up.meter.written + wrote (moves (wakes_of w.up.happenings)) < u64_mod
        → IsDiscreet float topts.out measuring
    unfolding measuring
    measuring-IsDiscreet downs ups h k h' k' = record {
      probes = λ log c.
          (is_up_lem crate topts.out w.utf8_chunks w.elapsed w.stamp s w.get_prefix log c).1;
      informs = λ log c {d} e.
          (get_ip_info-Informs crate topts.out w.utf8_chunks w.elapsed w.stamp w.from_slice w.lossy
            w.no_info s w.get_bytes distance log c {d = d} e).5;
      pings = λ log c.
          (icmp_ping_and_jitter-Falls float crate topts.out w.stamp w.elapsed w.resolve_host
            w.icmp_rtts s w.get_drained ping_count log no_icmp c).1;
      downloads = λ still log c.
          quiet_stream _ _ _ w.down c (down log c) still
            (download-Reports float w.to_string topts crate s w.down c log h k (downs log c));
      uploads = λ still log c.
          quiet_stream _ _ _ w.up c (up log c) still
            (upload-Reports float w.to_string topts crate s w.up c log h' k' (ups log c));
    }
