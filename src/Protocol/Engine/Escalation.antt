-- ===== src/Protocol/Engine/Escalation.antt =====
-- How pkg/protocol/process_unix.go and process_other.go end a command that does not end by itself.
use uni_chat_sdk.Prelude.{Bytes, none, [], ◌∷◌, ◌≡◌, ◌≢◌, ◌↔◌, ◌⊎◌, arith}
use uni_chat_sdk.Protocol.Engine.{
  Error, sigterm, sigkill, failure, done, expired, Run, run_bounded_command, after_timeout,
  run_other_command, interrupt_command, after_grace,
}

pub run_bounded_command_lem :
    (timeout : Bytes) (r : Run)
    → (((run_bounded_command timeout r).1 ≡ none) ↔ ((r.start ≡ none) × (r.in_time ≡ done none)))
      × (((run_other_command timeout r).1 ≡ none) ↔ ((r.start ≡ none) × (r.in_time ≡ done none)))
      × (r.start ≢ none → (run_bounded_command timeout r).0 ≡ [])
      × ((err : Error) → r.in_time ≡ done err → (run_bounded_command timeout r).0 ≡ [])
      × (r.start ≡ none
          → r.in_time ≡ expired
          → ((run_bounded_command timeout r).1 ≢ none)
            × (((run_bounded_command timeout r).0 ≡ sigterm ∷ [])
                ⊎ ((run_bounded_command timeout r).0 ≡ sigterm ∷ sigkill ∷ []))
            × (((run_bounded_command timeout r).0 ≡ sigterm ∷ sigkill ∷ [])
                ↔ ((failure r.term ≡ none) × (r.in_grace ≡ expired))))
unfolding run_bounded_command after_timeout after_grace run_other_command interrupt_command
run_bounded_command_lem timeout r = ground arith
