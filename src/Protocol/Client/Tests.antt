-- ===== src/Protocol/Client/Tests.antt =====
-- Calls over a socket and of an engine on one small request.
use uni_chat_sdk.Prelude.{
  Bytes, text, ◌==◌, ==_iff, true, ◌&&◌, none, [], ◌∷◌, if◌then◌else◌, ◌≡◌, refl, arith, sym,
  trim_space,
}
use uni_chat_sdk.Protocol.Types.{Request, Response}
use uni_chat_sdk.Protocol.Intake.{
  Ending, Decoder, decoded, decode_bounded_request, check_decoded, has_non_whitespace,
  reject_trailing_data, reject_pipe_trailing_data,
}
use uni_chat_sdk.Protocol.Answer.{Handler, replies, call_handler_context, serve_stdio}
use uni_chat_sdk.Protocol.Engine.{Result, error, value, Engine, done, sent, call_stdio}
use uni_chat_sdk.Protocol.Buffer.Kept.{concat}
use uni_chat_sdk.Protocol.Client.{sets_deadline, sends, receives, closes, connected, call, line}
use uni_chat_sdk.Protocol.Client.Codec.{IsRequestCodec, IsResponseCodec}
use uni_chat_sdk.Protocol.Client.Served.{daemon, call-serve_conn, lines}
use uni_chat_sdk.Protocol.Client.Spawned.{Serves, call_stdio-serve_stdio}

abbrev ping : Request
ping = record { cmd = text "ping"; args = [] }

abbrev ping_text : Bytes
ping_text = text "{\"cmd\":\"ping\"}"

-- Codecs that know one message each.
abbrev marshal_ping : Request → Result Bytes
marshal_ping req =
    if req.cmd == text "ping" && req.args == [] then value ping_text else error (text "unknown")

abbrev decode_ping : Decoder
decode_ping b e = decoded ping 14 15

ping_codec : IsRequestCodec marshal_ping decode_ping (λ req. req)
ping_codec = record {
  decode-marshal = λ req b w e m.
      (15, ground (arith, m), ground (arith, m, ==_iff req.cmd (text "ping"), ==_iff req.args []));
}

abbrev pong : Response
pong = record { ok = true; body = []; error = [] }

abbrev marshal_pong : Response → Result Bytes
marshal_pong resp =
    if resp.ok && resp.body == [] && resp.error == []
    then value (text "{\"ok\":true}")
    else error (text "unknown")

abbrev unmarshal_pong : Bytes → Result Response
unmarshal_pong b = value pong

abbrev decode_pong : Bytes → Ending → Result Response
decode_pong b e = value pong

abbrev pong_text : Bytes
pong_text = text "{\"ok\":true}"

pong_text-trimmed : trim_space (line pong_text) ≡ pong_text
unfolding trim_space
pong_text-trimmed = refl

marshal_pong-text : (resp : Response) (b : Bytes) → marshal_pong resp ≡ value b → pong_text ≡ b
marshal_pong-text resp b m = ground (arith, m)

pong_codec : IsResponseCodec marshal_pong unmarshal_pong decode_pong (λ resp. resp)
pong_codec = record {
  trim-marshal = λ resp b m. rw (sym (marshal_pong-text resp b m)) pong_text-trimmed;
  unmarshal-marshal = λ resp b m. ground (arith, m, ==_iff resp.body [], ==_iff resp.error []);
  decode-marshal = λ resp b e m. ground (arith, m, ==_iff resp.body [], ==_iff resp.error []);
}

abbrev answering : Handler
answering req = replies pong

ping_marshalled : marshal_ping ping ≡ value ping_text
unfolding ◌==◌
ping_marshalled = refl

pong_marshalled : marshal_pong (call_handler_context answering ping) ≡ value pong_text
unfolding call_handler_context ◌==◌
pong_marshalled = refl

call-serve_conn_example :
    call marshal_ping decode_pong connected (daemon decode_ping answering marshal_pong) ping 500 ≡ (
      sets_deadline 500 ∷ sends (line ping_text) ∷ receives ∷ closes ∷ [],
      value (call_handler_context answering ping),
    )
call-serve_conn_example =
    call-serve_conn marshal_pong ping_codec pong_codec answering ping ping_text pong_text 500
      ping_marshalled (omega arith) pong_marshalled

-- An engine that writes its response in two pieces.
abbrev engine : Bytes → Engine
engine input = record {
  stdout = text "{\"ok\":" ∷ text "true}\n" ∷ [];
  stderr = [];
  run = record {
    start = none;
    in_time = done none;
    term = sent;
    in_grace = done none;
    kill = sent;
    last = none;
  };
}

engine-Serves : Serves decode_ping answering marshal_pong ping_text (engine ping_text)
unfolding lines serve_stdio decode_bounded_request check_decoded has_non_whitespace
    reject_trailing_data reject_pipe_trailing_data trim_space call_handler_context concat ◌==◌
engine-Serves = record { starts = refl; ends = refl; output = refl; short = omega arith }

call_stdio-serve_stdio_example :
    call_stdio marshal_ping unmarshal_pong (text "mm") (text "2s") engine ping
    ≡ value (call_handler_context answering ping)
call_stdio-serve_stdio_example =
    call_stdio-serve_stdio ping_codec pong_codec answering ping ping_text pong_text (text "mm")
      (text "2s") engine ping_marshalled (omega arith) pong_marshalled engine-Serves
