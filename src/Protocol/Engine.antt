-- ===== src/Protocol/Engine.antt =====
-- How the router of pkg/protocol calls an engine: CallStdio of protocol.go, and runBoundedCommand of
-- process_unix.go and of process_other.go.
pub mod Escalation
pub mod Whole
use uni_chat_sdk.Prelude.{
  ℕ, Bytes, text, Bool, true, false, Option, none, some, List, [], ◌∷◌, ◌++◌, if◌then◌else◌,
  trim_space,
}
use uni_chat_sdk.Protocol.Types.{Request, Response}
use uni_chat_sdk.Protocol.Buffer.{
  BoundedBuffer, new_bounded_buffer, write_all, sanitize_stderr_tail, max_engine_stdout_bytes,
  max_engine_stderr_bytes,
}

-- An error is its text, `none` is nil.
abbrev pub Error : Type 0
Error = Option Bytes

pub data Signal : Type 0 where
  sigterm : Signal
  sigkill : Signal
  interrupt : Signal

-- What syscall.Kill comes to: nil, ESRCH, or another error.
pub data Kill : Type 0 where
  sent : Kill
  no_such_process : Kill
  not_sent : Bytes → Kill

-- Which case of a select is taken: the command is done, with the error of its Wait, or the time is up.
pub data First : Type 0 where
  done : Error → First
  expired : First

-- What the system does to one command: its Start, the first select, the SIGTERM, the second select,
-- the SIGKILL and the error of the Wait behind it.
pub record Run : Type 0 where
  pub start : Error
  pub in_time : First
  pub term : Kill
  pub in_grace : First
  pub kill : Kill
  pub last : Error

-- The verb %w: nil is printed as a missing verb.
abbrev pub wrapped : Error → Bytes
wrapped none = text "%!w(<nil>)"
wrapped (some e) = e

-- `err != nil && !errors.Is(err, ESRCH)`
abbrev pub failure : Kill → Error
failure sent = none
failure no_such_process = none
failure (not_sent e) = some e

-- `timeout` is the text of the duration. The grace is 500ms.
unfoldable pub after_grace : Bytes → Run → List Signal × Error
after_grace timeout r = elim (failure r.kill) [
  | some e ↦ (
    sigterm ∷ sigkill ∷ [],
    some (text "engine timeout after " ++ timeout ++ text "; failed to send SIGKILL: " ++ e),
  )
  | none ↦ (
    sigterm ∷ sigkill ∷ [],
    some (
        text "engine timeout after "
        ++ timeout
        ++ text "; sent SIGTERM, then SIGKILL after 500ms: "
        ++ wrapped r.last),
  )
]

unfoldable pub after_timeout : Bytes → Run → List Signal × Error
after_timeout timeout r = elim (failure r.term) [
  | some e ↦ (
    sigterm ∷ [],
    some (text "engine timeout after " ++ timeout ++ text "; failed to send SIGTERM: " ++ e),
  )
  | none ↦ elim r.in_grace [
    | done err ↦ (
      sigterm ∷ [],
      some (text "engine timeout after " ++ timeout ++ text "; sent SIGTERM: " ++ wrapped err),
    )
    | expired ↦ after_grace timeout r
  ]
]

-- The signals that are sent to the process group, in order, and the error.
unfoldable pub run_bounded_command : Bytes → Run → List Signal × Error
run_bounded_command timeout r = elim r.start [
  | some err ↦ ([], some err)
  | none ↦ elim r.in_time [ done err ↦ ([], err) | expired ↦ after_timeout timeout r ]
]

-- The build of process_other.go, which signals the one process and ignores whether it could.
unfoldable pub interrupt_command : Bytes → Run → List Signal × Error
interrupt_command timeout r = elim r.in_grace [
  | done err ↦ (
    interrupt ∷ [],
    some (text "engine timeout after " ++ timeout ++ text "; sent interrupt: " ++ wrapped err),
  )
  | expired ↦ (
    interrupt ∷ sigkill ∷ [],
    some (
        text "engine timeout after "
        ++ timeout
        ++ text "; sent interrupt, then kill after 500ms: "
        ++ wrapped r.last),
  )
]

unfoldable pub run_other_command : Bytes → Run → List Signal × Error
run_other_command timeout r = elim r.start [
  | some err ↦ ([], some err)
  | none ↦ elim r.in_time [ done err ↦ ([], err) | expired ↦ interrupt_command timeout r ]
]

-- json.Marshal and json.Unmarshal, where the left side is the text of an error.
pub data Result (A : Type 0) : Type 0 where
  error : Bytes → Result A
  value : A → Result A

-- What one engine writes, cut as it arrives, and how its run goes.
pub record Engine : Type 0 where
  pub stdout : List Bytes
  pub stderr : List Bytes
  pub run : Run

unfoldable pub read_response : (Bytes → Result Response) → Bytes → BoundedBuffer → Result Response
read_response unmarshal bin stdout =
    if stdout.truncated
    then error (text "engine " ++ bin ++ text ": response exceeds 1048576 bytes")
    else elim (unmarshal (trim_space stdout.buf)) [
      | error err ↦ error (text "engine " ++ bin ++ text ": bad response: " ++ err)
      | value resp ↦ value resp
    ]

-- `marshal req` is what the engine reads; `engine` answers for it.
unfoldable pub call_stdio :
    (Request → Result Bytes)
    → (Bytes → Result Response)
    → Bytes
    → Bytes
    → (Bytes → Engine)
    → Request
    → Result Response
call_stdio marshal unmarshal bin timeout engine req = elim (marshal req) [
  | error err ↦ error err
  | value input ↦
      let stdout = write_all (new_bounded_buffer max_engine_stdout_bytes) (engine input).stdout in
      let stderr = write_all (new_bounded_buffer max_engine_stderr_bytes) (engine input).stderr in
      elim (run_bounded_command timeout (engine input).run).1 [
        | some err ↦
            error (
              text "engine " ++ bin ++ text ": " ++ err ++ text ": " ++ sanitize_stderr_tail stderr)
        | none ↦ read_response unmarshal bin stdout
      ]
]
