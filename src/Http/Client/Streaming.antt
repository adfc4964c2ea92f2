-- ===== src/Http/Client/Streaming.antt =====
-- The headers of a transfer's requests, in `send_streaming` of src/http/mod.rs.
use speedtest_cli_rust.Base.{Bool, true, false, not, List, [], ◌∷◌, some, Result, All, ◌≡◌, refl}
use speedtest_cli_rust.Base.Text.{Bytes, eq_text}
use speedtest_cli_rust.Url.{UrlCrate}
use speedtest_cli_rust.Http.Message.{Method, RequestBody, Headers, user_agent_header, Response}
use speedtest_cli_rust.Http.Request.{
  RequestError, Request, Wire, Exchange, round, request, request_of, sent_headers, initial,
  is_stream, max_redirects,
}
use speedtest_cli_rust.Http.Request.Rounds.{Sent, nothing, one, round-Sent}
use speedtest_cli_rust.Http.Request.Total.{request_loop_inv}
use speedtest_cli_rust.Http.Client.{accept_encoding, identity, send_streaming}

abbrev transfer_headers : Headers
transfer_headers = (accept_encoding, identity) ∷ []

-- Nothing is left out of them, whether or not the body is dropped.
sent_headers-transfer : (dropped : Bool) → sent_headers dropped transfer_headers ≡ transfer_headers
unfolding sent_headers eq_text
sent_headers-transfer true = refl
sent_headers-transfer false = refl

module _ (crate : UrlCrate) (wire : Wire (UrlCrate.Url crate)) (user_agent : Bytes) where
  open crate use {Url}

  -- The request names the program, and asks for what is measured to come as it is.
  abbrev pub IsPlain : Request Url → Type 0
  IsPlain r = r.headers ≡ (user_agent_header, user_agent) ∷ (accept_encoding, identity) ∷ []

  request_of-IsPlain :
      (ex : Exchange Url) → IsPlain (request_of crate wire user_agent transfer_headers ex)
  unfolding request_of
  request_of-IsPlain ex = rw (sent_headers-transfer _) refl

  round-IsPlain :
      (replayable : Bool) (h : List (Request Url)) (ex : Exchange Url)
      → All IsPlain h
      → All IsPlain (round crate wire user_agent replayable transfer_headers h ex).1
  round-IsPlain replayable h ex plain =
      go (round-Sent crate wire user_agent replayable transfer_headers h ex)
    where
      go :
          {h' : List (Request Url)}
          → Sent crate wire user_agent transfer_headers h ex h'
          → All IsPlain h'
      go nothing = plain
      go (one web) = (request_of-IsPlain ex, plain)

  -- Every request of a transfer, behind redirects too, has the program's name and asks for no
  -- compression, and has no other header.
  pub send_streaming-IsPlain :
      (method : Method) (url : Url) (body : RequestBody) (r : Result RequestError Response)
      (h : List (Request Url))
      → send_streaming crate wire user_agent method url body ≡ some (r, h)
      → All IsPlain h
  unfolding send_streaming request
  send_streaming-IsPlain method url body r h e =
      request_loop_inv crate wire user_agent (not (is_stream body)) transfer_headers
        (λ h ex. All IsPlain h) (All IsPlain)
        (λ h ex ex' plain e'. round-IsPlain (not (is_stream body)) h ex plain)
        (round-IsPlain (not (is_stream body))) max_redirects []
        (initial crate wire user_agent method url body) tt r h e
