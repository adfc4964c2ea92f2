-- ===== src/Defs/Server/Sponsor.antt =====
-- What `sponsor` of src/defs/server.rs prints.
use speedtest_cli_rust.Base.{Option, none, some, ◌≡◌, refl, inl, inr, Bool-cases, is_empty}
use speedtest_cli_rust.Url.{UrlCrate}
use speedtest_cli_rust.Output.{Output, Console}
use speedtest_cli_rust.Output.Streams.{stdout_text, stdout_text-write_debug}
use speedtest_cli_rust.Defs.Server.{sponsor, with_address, sponsor_address}
use speedtest_cli_rust.Speedtest.Servers.{Server}

module _ (crate : UrlCrate) (out : Output) (s : Server) where
  open crate use {Url, parse}

  with_address-stdout :
      (c : Console) (u : Option Url) → stdout_text (with_address crate out s c u).1 ≡ stdout_text c
  with_address-stdout c (some u) = refl
  with_address-stdout c none = stdout_text-write_debug out _ c

  pub sponsor-stdout : (c : Console) → stdout_text (sponsor crate out s c).1 ≡ stdout_text c
  unfolding sponsor
  sponsor-stdout c = elim (Bool-cases (is_empty s.sponsor_name)) [
    | inl e ↦ rw e refl
    | inr e ↦ elim (Bool-cases (is_empty s.sponsor_url)) [
      | inl k ↦ rw (e, k) refl
      | inr k ↦ rw (e, k) (with_address-stdout c (parse (sponsor_address crate s)))
    ]
  ]
