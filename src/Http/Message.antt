-- ===== src/Http/Message.antt =====
-- Requests and responses as src/http/mod.rs uses them, from the `http` crate.
use speedtest_cli_rust.Base.{ℕ, List, Option}
use speedtest_cli_rust.Http.Body.{Incoming}
use speedtest_cli_rust.Base.Text.{Text, Bytes, codes}

-- The methods that the program sends.
pub data Method : Type 0 where
  get post : Method

-- `ReqBody`: an empty body, one held in memory, or one that is produced as it is sent, which
-- stands for itself by a number.
pub data ReqBody : Type 0 where
  empty_body : ReqBody
  full_body : Bytes → ReqBody
  boxed : ℕ → ReqBody

-- `enum RequestBody`
pub data RequestBody : Type 0 where
  empty : RequestBody
  bytes : Bytes → RequestBody
  stream : ReqBody → RequestBody

-- Headers by their lower-case names.
abbrev pub Headers : Type 0
Headers = List (Text × Bytes)

abbrev pub content_type : Text
content_type = codes "content-type"

abbrev pub user_agent_header : Text
user_agent_header = codes "user-agent"

pub record Response : Type 0 where
  pub status : ℕ
  -- the first `Location` header
  pub location : Option Bytes
  pub body : Incoming
