-- ===== src/Protocol/Answer.antt =====
-- How pkg/protocol/protocol.go answers a request, over a pipe and over a socket.
pub mod Once
use uni_chat_sdk.Prelude.{
  ℕ, suc, ◌*◌, Bytes, text, ◌==◌, Bool, true, false, Option, none, some, List, [], ◌∷◌, ◌++◌,
  if◌then◌else◌,
}
use uni_chat_sdk.Protocol.Types.{Request, Response}
use uni_chat_sdk.Protocol.Intake.{
  Input, Decoder, Intake, rejected, accepted, decode_bounded_request,
}

-- The source's MarshalArgs drops the error of the encoder: the data is the text, or nothing. `encode`
-- is json.Marshal at the type of the data.
unfoldable pub marshal_args : {A : Type 0} → (A → Option Bytes) → A → Bytes
marshal_args encode v = elim (encode v) [ none ↦ [] | some b ↦ b ]

-- OK: `none` is nil data.
unfoldable pub ok_response : {A : Type 0} → (A → Option Bytes) → Option A → Response
ok_response encode none = record { ok = true; body = []; error = [] }
ok_response encode (some v) = record { ok = true; body = marshal_args encode v; error = [] }

unfoldable pub fail : Bytes → Response
fail err = record { ok = false; body = []; error = err }

-- What a call of a handler comes to. The context is part of the handler.
pub data Outcome : Type 0 where
  replies : Response → Outcome
  panics : Bytes → Outcome

abbrev pub Handler : Type 0
Handler = Request → Outcome

unfoldable pub call_handler_context : Handler → Request → Response
call_handler_context h req = elim (h req) [
  | replies resp ↦ resp
  | panics r ↦ fail (text "internal error: " ++ r)
]

-- The response that is written.
unfoldable pub serve_stdio : Decoder → Input → Handler → Response
serve_stdio decode i h = elim (decode_bounded_request decode i) [
  | rejected err ↦ fail (text "bad request: " ++ err)
  | accepted req ↦ call_handler_context h req
]

-- In milliseconds.
abbrev pub second : ℕ
second = 1000

abbrev pub minute : ℕ
minute = 60 * second

abbrev pub serve_connection_timeout : ℕ
serve_connection_timeout = 120 * second

abbrev pub sync_serve_timeout : ℕ
sync_serve_timeout = 11 * minute

abbrev pub delete_range_summary_serve_timeout : ℕ
delete_range_summary_serve_timeout = 11 * minute

abbrev pub delete_job_start_serve_timeout : ℕ
delete_job_start_serve_timeout = 12 * minute

abbrev pub serve_busy_write_timeout : ℕ
serve_busy_write_timeout = 100

unfoldable pub serve_connection_timeout_for : Bytes → ℕ
serve_connection_timeout_for cmd =
    if cmd == text "delete_job_start"
    then delete_job_start_serve_timeout
    else if cmd == text "delete_range_summary"
    then delete_range_summary_serve_timeout
    else if cmd == text "sync"
    then sync_serve_timeout
    else serve_connection_timeout

-- What is done to a connection: a deadline from now, the read of a request, a call of the handler, the
-- write of a response, the close. A failed write shows in no later action.
pub data Action : Type 0 where
  sets_deadline : ℕ → Action
  sets_read_deadline : ℕ → Action
  sets_write_deadline : ℕ → Action
  reads : Action
  calls : Request → Action
  writes : Response → Action
  closes : Action

-- The actions in between the first deadline and the close, by what the read came to.
unfoldable pub answer : Handler → Intake → List Action
answer h (rejected err) = writes (fail (text "bad request")) ∷ []
answer h (accepted req) =
    sets_deadline (serve_connection_timeout_for req.cmd)
    ∷ calls req
    ∷ writes (call_handler_context h req)
    ∷ []

unfoldable pub serve_conn : Decoder → Input → Handler → List Action
serve_conn decode i h =
    sets_deadline serve_connection_timeout ∷ reads ∷ answer h (decode_bounded_request decode i)
    ++ (closes ∷ [])

abbrev pub server_busy : Bytes
server_busy = text "server busy"

-- What is read is thrown away.
unfoldable pub write_busy_response : List Action
write_busy_response =
    sets_read_deadline serve_busy_write_timeout
    ∷ reads
    ∷ sets_write_deadline serve_busy_write_timeout
    ∷ writes (fail server_busy)
    ∷ closes
    ∷ []
