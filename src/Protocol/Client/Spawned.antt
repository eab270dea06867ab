-- ===== src/Protocol/Client/Spawned.antt =====
-- CallStdio of pkg/protocol/protocol.go on an engine that serves its standard input.
use uni_chat_sdk.Prelude.{
  ℕ, ◌+◌, ◌≤◌, ◌<◌, Bytes, false, none, List, [], ◌∷◌, length, trim_space, ◌≡◌, refl, ap, ◌∙◌,
  arith, length-append,
}
use uni_chat_sdk.Protocol.Types.{Request, Response}
use uni_chat_sdk.Protocol.Buffer.{new_bounded_buffer, write_all}
use uni_chat_sdk.Protocol.Buffer.Kept.{concat, overflows, write_all_lem, write_all-whole}
use uni_chat_sdk.Protocol.Intake.{
  Ending, Input, Decoder, pipe, at_eof, accepted, decode_bounded_request,
}
use uni_chat_sdk.Protocol.Answer.{Handler, serve_stdio, call_handler_context}
use uni_chat_sdk.Protocol.Engine.{
  done, run_bounded_command, Result, value, Engine, read_response, call_stdio,
}
use uni_chat_sdk.Protocol.Engine.Escalation.{run_bounded_command_lem}
use uni_chat_sdk.Protocol.Client.{line}
use uni_chat_sdk.Protocol.Client.Codec.{IsRequestCodec, IsResponseCodec}
use uni_chat_sdk.Protocol.Client.Served.{accepts, lines, lines_one}

not_overflowing :
    (limit n : ℕ) (ps : List Bytes) → n + length (concat ps) < limit → overflows limit n ps ≡ false
unfolding overflows concat
not_overflowing limit n [] h = refl
not_overflowing limit n (p ∷ ps) h =
    ground (arith, not_overflowing limit (n + length p) ps, length-append p (concat ps))

-- All of a short output is decoded.
read_short :
    (unmarshal : Bytes → Result Response) (bin : Bytes) (ps : List Bytes) (resp : Response)
    → length (concat ps) < 1048576
    → unmarshal (trim_space (concat ps)) ≡ value resp
    → read_response unmarshal bin (write_all (new_bounded_buffer 1048576) ps) ≡ value resp
unfolding read_response
read_short unmarshal bin ps resp h u = ground (
  arith,
  (write_all_lem 1048576 ps).1,
  not_overflowing 1048576 0 ps,
  (write_all-whole 1048576 ps).0,
  u,
)

-- The engine's process, given the text of a request: a run that ends well in time, whose output is what
-- ServeStdio writes for the request, cut anyhow, and shorter than the limit.
pub record Serves (decode : Decoder) (h : Handler) (marshal : Response → Result Bytes)
    (input : Bytes) (e : Engine) : Type 0 where
  pub starts : e.run.start ≡ none
  pub ends : e.run.in_time ≡ done none
  pub output :
      concat e.stdout
      ≡ lines marshal
          (serve_stdio decode (record { channel = pipe; bytes = input; ending = at_eof }) h ∷ [])
  pub short : length (concat e.stdout) < 1048576

call_stdio_short :
    (marshal : Request → Result Bytes) (unmarshal : Bytes → Result Response) (bin timeout : Bytes)
    (engine : Bytes → Engine) (req : Request) (input : Bytes) (resp : Response)
    → marshal req ≡ value input
    → (run_bounded_command timeout (engine input).run).1 ≡ none
    → read_response unmarshal bin (write_all (new_bounded_buffer 1048576) (engine input).stdout)
      ≡ value resp
    → call_stdio marshal unmarshal bin timeout engine req ≡ value resp
unfolding call_stdio
call_stdio_short marshal unmarshal bin timeout engine req input resp m r v = ground (arith, m, r, v)

serve_stdio_accepted :
    (decode : Decoder) (i : Input) (h : Handler) (req : Request)
    → decode_bounded_request decode i ≡ accepted req
    → serve_stdio decode i h ≡ call_handler_context h req
unfolding serve_stdio
serve_stdio_accepted decode i h req a = rw (serve_stdio, a) refl

module _ {marshal_req : Request → Result Bytes} {decode_req : Decoder}
    {received_req : Request → Request} {marshal : Response → Result Bytes}
    {unmarshal : Bytes → Result Response} {decode : Bytes → Ending → Result Response}
    {received : Response → Response} where
  -- A call to an engine that serves its standard input, with a request of at most 1048576 bytes,
  -- returns the response of the engine's handler to the request, a panic's failure included, if the
  -- engine ends well in time, the response can be written in fewer than 1048576 bytes, and the codecs
  -- read what they write.
  pub call_stdio-serve_stdio :
      IsRequestCodec marshal_req decode_req received_req
      → IsResponseCodec marshal unmarshal decode received
      → (h : Handler) (req : Request) (b c bin timeout : Bytes) (engine : Bytes → Engine)
      → marshal_req req ≡ value b
      → length b ≤ 1048576
      → marshal (call_handler_context h (received_req req)) ≡ value c
      → Serves decode_req h marshal b (engine b)
      → call_stdio marshal_req unmarshal bin timeout engine req
        ≡ value (received (call_handler_context h (received_req req)))
  call_stdio-serve_stdio requests responses h req b c bin timeout engine m short mc serves =
      let resp = call_handler_context h (received_req req) in
      let same =
        serve_stdio_accepted decode_req (record { channel = pipe; bytes = b; ending = at_eof }) h
          (received_req req) (accepts requests req b false pipe m short) in
      let out : concat (engine b).stdout ≡ line c =
        serves.output ∙ ap (λ r. lines marshal (r ∷ [])) same ∙ lines_one marshal resp c mc in
      let read : unmarshal (trim_space (concat (engine b).stdout)) ≡ value (received resp) =
        rw (out, responses.trim-marshal resp c mc) (responses.unmarshal-marshal resp c mc) in
      call_stdio_short marshal_req unmarshal bin timeout engine req b (received resp) m
        ((run_bounded_command_lem timeout (engine b).run).0.1 (serves.starts, serves.ends))
        (read_short unmarshal bin (engine b).stdout (received resp) serves.short read)
