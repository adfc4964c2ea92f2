-- ===== src/Main/Laws.antt =====
-- The exit code of the process of src/main.rs.
use speedtest_cli_rust.Base.{false, ok, ◌≡◌, ◌⊎◌}
use speedtest_cli_rust.Base.Float.{Float}
use speedtest_cli_rust.Url.{UrlCrate}
use speedtest_cli_rust.Output.{Console}
use speedtest_cli_rust.Speedtest.Servers.{Server}
use speedtest_cli_rust.Speedtest.Run.{Args, World, Context}
use speedtest_cli_rust.Speedtest.Run.Prints.{Printed}
use speedtest_cli_rust.Helper.Run.Discreet.{Same, IsDiscreet}
use speedtest_cli_rust.Main.{Exit}

module _ (float : Float) (crate : UrlCrate) (Client : Type 0) (w : World float crate Client)
    (cli : Args) (unstreamed : cli.tests.cli.json_stream ≡ false)
    (interactive : cli.tests.cli.simple ≡ false)
    (discreet : (ctx : Context Client) (s : Server)
      → IsDiscreet float ctx.out (w.backend ctx s)) where
  -- The code 1 with nothing that scripts have read, or the code 0 with what the tests print.
  abbrev pub Tells : Console → Exit → Type 0
  Tells c (code, c') =
      ((code ≡ 1) × Same c c')
      ⊎ ((code ≡ 0) × Printed float crate Client w cli unstreamed interactive discreet c (ok c'))
