-- ===== src/Protocol/Engine/Whole.antt =====
-- What CallStdio of pkg/protocol/protocol.go makes of an engine's output.
use uni_chat_sdk.Prelude.{Bytes, false, none, List, ◌≡◌, ◌≤◌, length, arith, sym, trim_space}
use uni_chat_sdk.Protocol.Types.{Request, Response}
use uni_chat_sdk.Protocol.Buffer.{BoundedBuffer, new_bounded_buffer, write_all}
use uni_chat_sdk.Protocol.Buffer.Kept.{concat, write_all-whole}
use uni_chat_sdk.Protocol.Engine.{
  done, run_bounded_command, Result, value, Engine, read_response, call_stdio,
}
use uni_chat_sdk.Protocol.Engine.Escalation.{run_bounded_command_lem}

-- A response comes from a buffer that was not cut off.
read_response-value :
    (unmarshal : Bytes → Result Response) (bin : Bytes) (b : BoundedBuffer) (resp : Response)
    → read_response unmarshal bin b ≡ value resp
    → (b.truncated ≡ false) × (unmarshal (trim_space b.buf) ≡ value resp)
unfolding read_response
read_response-value unmarshal bin b resp h = ground arith

read_response-whole :
    (unmarshal : Bytes → Result Response) (bin : Bytes) (ps : List Bytes) (resp : Response)
    → read_response unmarshal bin (write_all (new_bounded_buffer 1048576) ps) ≡ value resp
    → (length (concat ps) ≤ 1048576) × (unmarshal (trim_space (concat ps)) ≡ value resp)
read_response-whole unmarshal bin ps resp h =
    let (w, p, l) = write_all-whole 1048576 ps in
    let (t, v) =
      read_response-value unmarshal bin (write_all (new_bounded_buffer 1048576) ps) resp h in
    (rw (sym (w t)) l, rw (sym (w t)) v)

-- A response comes from a run without an error.
call_stdio-value :
    (marshal : Request → Result Bytes) (unmarshal : Bytes → Result Response) (bin timeout : Bytes)
    (engine : Bytes → Engine) (req : Request) (input : Bytes) (resp : Response)
    → marshal req ≡ value input
    → call_stdio marshal unmarshal bin timeout engine req ≡ value resp
    → ((run_bounded_command timeout (engine input).run).1 ≡ none)
      × (read_response unmarshal bin (write_all (new_bounded_buffer 1048576) (engine input).stdout)
          ≡ value resp)
unfolding call_stdio
call_stdio-value marshal unmarshal bin timeout engine req input resp m h = ground arith

-- An engine's response is handed on only if the engine started and ended without an error in time,
-- wrote at most 1048576 bytes, and all that it wrote decodes to that response: a response is never
-- read from output that was cut off.
pub call_stdio-whole :
    (marshal : Request → Result Bytes) (unmarshal : Bytes → Result Response) (bin timeout : Bytes)
    (engine : Bytes → Engine) (req : Request) (input : Bytes) (resp : Response)
    → marshal req ≡ value input
    → call_stdio marshal unmarshal bin timeout engine req ≡ value resp
    → let e = engine input in
      (e.run.start ≡ none)
      × (e.run.in_time ≡ done none)
      × (length (concat e.stdout) ≤ 1048576)
      × (unmarshal (trim_space (concat e.stdout)) ≡ value resp)
call_stdio-whole marshal unmarshal bin timeout engine req input resp m h =
    let (n, v) = call_stdio-value marshal unmarshal bin timeout engine req input resp m h in
    let (start, in_time) = (run_bounded_command_lem timeout (engine input).run).0.0 n in
    let (l, u) = read_response-whole unmarshal bin (engine input).stdout resp v in
    (start, in_time, l, u)
