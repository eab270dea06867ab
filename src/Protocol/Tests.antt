-- ===== src/Protocol/Tests.antt =====
-- Runs of the buffer, the listener and the accept loop of pkg/protocol/protocol.go on small inputs.
use uni_chat_sdk.Prelude.{
  ltb, if◌then◌else◌, ◌≤◌, Bytes, text, ◌≡◌, ◌≢◌, refl, true, false, none, some, List, [], ◌∷◌,
  length, take,
}
use uni_chat_sdk.Protocol.Buffer.{
  BoundedBuffer, new_bounded_buffer, write_all, sanitize_stderr_tail,
}
use uni_chat_sdk.Protocol.Buffer.Kept.{concat, overflows, write_all_lem}
use uni_chat_sdk.Protocol.Buffer.Clean.{is_clean, sanitize_stderr_tail-clean}
use uni_chat_sdk.Protocol.Serve.{
  Server, start, accept, shut_down, accepting, returned, accepts, listener_closes, loop_ends,
  Reachable, stays, steps, phase_of,
}
use uni_chat_sdk.Protocol.Serve.Invariant.{held, in_service, IsServer, Reachable-IsServer}
use uni_chat_sdk.Protocol.Serve.Limits.{accept_lem, all_in, Reachable-cut}
use uni_chat_sdk.Protocol.Serve.Drain.{drains}
use uni_chat_sdk.Protocol.Listen.{Endpoint, Calls, listen}
use uni_chat_sdk.Protocol.Listen.Private.{Guarded, Opens, listen_lem}

abbrev chunks : List Bytes
chunks = text "ab" ∷ text "cd" ∷ text "ef" ∷ []

write_all_lem_example :
    let b = write_all (new_bounded_buffer 3) chunks in
    (b.buf ≡ take 3 (concat chunks)) × (b.truncated ≡ overflows 3 0 chunks)
write_all_lem_example = write_all_lem 3 chunks

abbrev escape : Bytes
escape = 27 ∷ text "[2J\nok"

abbrev noisy : BoundedBuffer
noisy = record { buf = escape; limit = 7; truncated = true }

sanitize_stderr_tail-clean_example : is_clean (sanitize_stderr_tail noisy) ≡ true
sanitize_stderr_tail-clean_example = sanitize_stderr_tail-clean noisy

-- One connection is in service.
abbrev one_served : Server
one_served = accept start 4

one_served-Reachable : Reachable one_served
unfolding start phase_of
one_served-Reachable = steps stays (accepts 4 refl refl refl)

-- The listener closes while it is.
abbrev closing : Server
closing = shut_down (record one_served { listening = false })

closing-Reachable : Reachable closing
unfolding start accept
closing-Reachable =
    steps (steps one_served-Reachable listener_closes)
      (loop_ends {s = record one_served { listening = false }} refl refl)

Reachable-IsServer_example : IsServer one_served
Reachable-IsServer_example = Reachable-IsServer one_served-Reachable

accept_lem_example :
    (length (in_service one_served.workers) ≤ 32)
    × (held one_served.workers ≤ 32)
    × (in_service (accept one_served 5).workers ≡ (
        if ltb (held one_served.workers) 32
        then 5 ∷ in_service one_served.workers
        else in_service one_served.workers))
    × ((accept one_served 5).refused
        ≡ (if ltb (held one_served.workers) 32 then one_served.refused else 5 ∷ one_served.refused))
accept_lem_example = accept_lem one_served-Reachable 5

closing-stage : closing.stage ≢ accepting
unfolding shut_down
closing-stage e = cc

Reachable-cut_example : all_in (in_service closing.workers) closing.cut ≡ true
Reachable-cut_example = Reachable-cut closing-Reachable closing-stage

drains_example :
    (t : Server) × uni_chat_sdk.Protocol.Serve.Run closing t
    × (t.stage ≡ returned)
    × (t.workers ≡ [])
    × (t.active ≡ [])
    × (t.slots ≡ 0)
    × (t.wg ≡ 0)
drains_example = drains closing-Reachable

-- The socket cannot be narrowed.
abbrev unlucky : Calls
unlucky = record {
  mkdir = none;
  chmod_dir = none;
  remove = some (text "no such file");
  listen = none;
  socket_mode = 493;
  chmod_socket = some (text "not permitted");
}

abbrev wide_dir : Endpoint
wide_dir = record { dir_mode = some 511; socket_mode = none; listening = false }

listen_lem_example :
    Guarded (listen unlucky wide_dir).0
    × Opens (listen unlucky wide_dir).0 (listen unlucky wide_dir).1
listen_lem_example = listen_lem unlucky wide_dir refl
