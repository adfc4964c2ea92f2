-- ===== src/Tests/Client.antt =====
-- A POST that is redirected once on its host, and a stream that is not sent again: src/http/mod.rs.
use speedtest_cli_rust.Base.{none, some, List, [], ◌∷◌, ◌≡◌, refl, ok, All, length, ◌≤◌, Result}
use speedtest_cli_rust.Base.Text.{Bytes, codes, eq_text, strip_prefix}
use speedtest_cli_rust.Base.Find.{find}
use speedtest_cli_rust.Http.Message.{
  Method, get, post, ReqBody, empty_body, full_body, boxed, bytes, stream, Headers, Response,
  content_type, user_agent_header,
}
use speedtest_cli_rust.Http.Origin.{same_origin, eq_host, eq_port}
use speedtest_cli_rust.Http.Request.{
  Request, RequestError, request, request_loop, round, request_of, initial, answered, match_status,
  find_location, read_location, join_target, redirect_to, keeps_body, sent_headers,
}
use speedtest_cli_rust.Http.Request.Safety.{IsWeb, StaysSecure, request-StaysSecure}
use speedtest_cli_rust.Http.Request.Bodies.{IsConfined, request-IsConfined}
use speedtest_cli_rust.Http.Request.Streams.{SentFirst, request-SentFirst}
use speedtest_cli_rust.Http.Request.Total.{request_total}
use speedtest_cli_rust.Http.Client.{accept_encoding, identity, send_streaming}
use speedtest_cli_rust.Http.Client.Streaming.{IsPlain, send_streaming-IsPlain}
use speedtest_cli_rust.Tests.Web.{Address, web, redirecting, start, moved, parse_address}

abbrev agent : Bytes
agent = codes "test"

abbrev typed : Headers
typed = (content_type, codes "text") ∷ []

abbrev payload : Bytes
payload = 1 ∷ 2 ∷ []

abbrev sent_to : Method → Address → Headers → ReqBody → Request Address
sent_to m u hs b = record {
  method = m;
  url = u;
  headers = (user_agent_header, agent) ∷ hs;
  body = b;
}

-- A 307 sends the body again, to the same host.
abbrev resent : List (Request Address)
resent =
    sent_to post moved typed (full_body payload) ∷ sent_to post start typed (full_body payload) ∷ []

abbrev final : Response
final = record { status = 200; location = none; body = [] }

resend :
    request web (redirecting 307 (codes "/y")) agent post start typed (bytes payload)
    ≡ some (ok final, resent)
unfolding request request_loop round request_of initial answered match_status find_location
    read_location join_target redirect_to keeps_body sent_headers eq_text parse_address find
    strip_prefix same_origin eq_host eq_port
resend = refl

request-StaysSecure_example : All (IsWeb web) resent × StaysSecure web resent
request-StaysSecure_example =
    request-StaysSecure web (redirecting 307 (codes "/y")) agent post start typed (bytes payload)
      (ok final) resent resend

request-IsConfined_example :
    All (IsConfined web (redirecting 307 (codes "/y")) agent post start payload) resent
request-IsConfined_example =
    request-IsConfined web (redirecting 307 (codes "/y")) agent post start typed payload (ok final)
      resent resend

request_total_example :
    (r : Result RequestError Response) × (h : List (Request Address)) × (request web
        (redirecting 307 (codes "/y"))
        agent
        post
        start
        typed
        (bytes payload)
      ≡ some (r, h))
    × (length h ≤ 10)
request_total_example =
    request_total web (redirecting 307 (codes "/y")) agent post start typed (bytes payload)

-- A 303 drops the stream, with its type.
abbrev dropped : List (Request Address)
dropped = sent_to get moved [] empty_body ∷ sent_to post start typed (boxed 0) ∷ []

drop_stream :
    request web (redirecting 303 (codes "/y")) agent post start typed (stream (boxed 0))
    ≡ some (ok final, dropped)
unfolding request request_loop round request_of initial answered match_status find_location
    read_location join_target redirect_to keeps_body sent_headers eq_text parse_address find
    strip_prefix same_origin eq_host eq_port
drop_stream = refl

request-SentFirst_example : SentFirst web (redirecting 303 (codes "/y")) agent (boxed 0) dropped
request-SentFirst_example =
    request-SentFirst web (redirecting 303 (codes "/y")) agent post start typed (boxed 0) (ok final)
      dropped drop_stream

abbrev plain_headers : Headers
plain_headers = (accept_encoding, identity) ∷ []

-- The upload stream, that a 303 drops.
abbrev transferred : List (Request Address)
transferred =
    sent_to get moved plain_headers empty_body ∷ sent_to post start plain_headers (boxed 0) ∷ []

transfer :
    send_streaming web (redirecting 303 (codes "/y")) agent post start (stream (boxed 0))
    ≡ some (ok final, transferred)
unfolding send_streaming request request_loop round request_of initial answered match_status
    find_location read_location join_target redirect_to keeps_body sent_headers eq_text
    parse_address find strip_prefix same_origin eq_host eq_port
transfer = refl

send_streaming-IsPlain_example : All (IsPlain web (redirecting 303 (codes "/y")) agent) transferred
send_streaming-IsPlain_example =
    send_streaming-IsPlain web (redirecting 303 (codes "/y")) agent post start (stream (boxed 0))
      (ok final) transferred transfer
