-- ===== src/Protocol/CallTests.antt =====
-- Runs of the requests, answers and engine calls of pkg/protocol on small inputs.
use uni_chat_sdk.Prelude.{
  ◌≤◌, Bytes, text, ◌≡◌, ◌↔◌, refl, true, none, some, [], ◌∷◌, length, trim_space,
}
use uni_chat_sdk.Protocol.Types.{Request, Response}
use uni_chat_sdk.Protocol.Buffer.Kept.{concat}
use uni_chat_sdk.Protocol.Intake.{
  Input, socket, timed_out, Decoder, decoded, accepted, decode_bounded_request, limited_view,
  limited_ending,
}
use uni_chat_sdk.Protocol.Intake.Accepted.{IsClear, accepted_iff}
use uni_chat_sdk.Protocol.Answer.{panics, Handler}
use uni_chat_sdk.Protocol.Engine.{
  sent, done, expired, Run, run_bounded_command, Result, value, Engine, call_stdio, read_response,
}
use uni_chat_sdk.Protocol.Engine.Whole.{call_stdio-whole}
use uni_chat_sdk.Protocol.Buffer.{new_bounded_buffer, write_all, write}

abbrev ping : Request
ping = record { cmd = text "ping"; args = [] }

-- A decoder that finds a request of two bytes and reads all of a short input.
abbrev decode_two : Decoder
decode_two view e = decoded ping 2 3

abbrev over_socket : Input
over_socket = record { channel = socket; bytes = text "{}\n \n"; ending = timed_out }

accepted_iff_example :
    (decode_bounded_request decode_two over_socket ≡ accepted ping)
    ↔ IsClear over_socket ping (decode_two (limited_view over_socket) (limited_ending over_socket))
accepted_iff_example = accepted_iff decode_two over_socket ping

abbrev failing : Handler
failing req = panics (text "nil map")

abbrev stubborn : Run
stubborn = record {
  start = none;
  in_time = expired;
  term = sent;
  in_grace = expired;
  kill = sent;
  last = some (text "signal: killed");
}

abbrev limit : Bytes
limit = text "2s"

abbrev pong : Response
pong = record { ok = true; body = []; error = [] }

abbrev answering : Bytes → Engine
answering input = record {
  stdout = text "{" ∷ text "}\n" ∷ [];
  stderr = [];
  run = record stubborn { in_time = done none };
}

abbrev marshal_ping : Request → Result Bytes
marshal_ping req = value req.cmd

abbrev unmarshal_pong : Bytes → Result Response
unmarshal_pong b = value pong

pong-called :
    call_stdio marshal_ping unmarshal_pong (text "engine") limit answering ping ≡ value pong
unfolding call_stdio read_response run_bounded_command new_bounded_buffer write_all write trim_space
pong-called = refl

call_stdio-whole_example :
    let e = answering (text "ping") in
    (e.run.start ≡ none)
    × (e.run.in_time ≡ done none)
    × (length (concat e.stdout) ≤ 1048576)
    × (unmarshal_pong (trim_space (concat e.stdout)) ≡ value pong)
call_stdio-whole_example =
    call_stdio-whole marshal_ping unmarshal_pong (text "engine") limit answering ping (text "ping")
      pong refl pong-called
