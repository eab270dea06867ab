-- ===== src/Protocol/Serve/Invariant.antt =====
-- What holds of the accept loop of pkg/protocol/protocol.go however its goroutines interleave.
use uni_chat_sdk.Prelude.{
  ℕ, suc, ◌+◌, ◌≤◌, eqb_iff, some, List, [], ◌∷◌, ◌≡◌, ◌≢◌, refl, length, arith,
}
use uni_chat_sdk.Protocol.Serve.{
  Phase, serving, deleted, released, cancelled, Worker, Server, start, remove, phase_of, set_phase,
  drop_worker, accept, shut_down, advance, Step, accepts, accept_fails, listener_closes, loop_ends,
  worker_advances, wait_ends, wait_times_out, Reachable, stays, steps,
  serve_max_concurrent_connections,
}

-- The slots that the workers hold.
abbrev pub slots_of : Phase → ℕ
slots_of serving = 1
slots_of deleted = 1
slots_of released = 0
slots_of cancelled = 0

unfoldable pub held : List Worker → ℕ
held [] = 0
held (w ∷ ws) = slots_of w.phase + held ws

abbrev pub serving_conn : ℕ → Phase → List ℕ → List ℕ
serving_conn c serving cs = c ∷ cs
serving_conn c deleted cs = cs
serving_conn c released cs = cs
serving_conn c cancelled cs = cs

-- The connections in service, the last accepted first.
unfoldable pub in_service : List Worker → List ℕ
in_service [] = []
in_service (w ∷ ws) = serving_conn w.conn w.phase (in_service ws)

unfoldable pub IsServer : Server → Type 0
IsServer s =
    (s.slots ≡ held s.workers)
    × (s.slots ≤ serve_max_concurrent_connections)
    × (s.active ≡ in_service s.workers)
    × (s.wg ≡ length s.workers)

held-set_phase :
    (c : ℕ) (p q : Phase) (ws : List Worker)
    → phase_of c ws ≡ some p
    → held (set_phase c q ws) + slots_of p ≡ held ws + slots_of q
unfolding held set_phase phase_of
held-set_phase c p q [] h = ground arith
held-set_phase c p q (w ∷ ws) h = ground (arith, held-set_phase c p q ws)

length-set_phase : (c : ℕ) (q : Phase) (ws : List Worker) → length (set_phase c q ws) ≡ length ws
unfolding set_phase
length-set_phase c q [] = refl
length-set_phase c q (w ∷ ws) = ground (arith, length-set_phase c q ws)

remove-in_service :
    (c : ℕ) (ws : List Worker)
    → phase_of c ws ≡ some serving
    → remove c (in_service ws) ≡ in_service (set_phase c deleted ws)
unfolding remove in_service set_phase phase_of
remove-in_service c [] h = ground arith
remove-in_service c (w ∷ ws) h = ground (arith, eqb_iff w.conn c, remove-in_service c ws)

in_service-set_phase :
    (c : ℕ) (p q : Phase) (ws : List Worker)
    → phase_of c ws ≡ some p
    → p ≢ serving
    → q ≢ serving
    → in_service (set_phase c q ws) ≡ in_service ws
unfolding in_service set_phase phase_of
in_service-set_phase c p q [] h np nq = ground arith
in_service-set_phase c p q (w ∷ ws) h np nq = ground (arith, np, nq, in_service-set_phase c p q ws)

drop_worker_lem :
    (c : ℕ) (ws : List Worker)
    → phase_of c ws ≡ some cancelled
    → (held (drop_worker c ws) ≡ held ws)
      × (in_service (drop_worker c ws) ≡ in_service ws)
      × (suc (length (drop_worker c ws)) ≡ length ws)
unfolding held in_service drop_worker phase_of
drop_worker_lem c [] h = ground arith
drop_worker_lem c (w ∷ ws) h = ground (arith, drop_worker_lem c ws)

advance-IsServer :
    (s : Server) (c : ℕ) (p : Phase)
    → phase_of c s.workers ≡ some p
    → IsServer s
    → IsServer (advance s c p)
unfolding IsServer advance
advance-IsServer s c serving h i = ground (
  arith,
  held-set_phase c serving deleted s.workers h,
  length-set_phase c deleted s.workers,
  remove-in_service c s.workers h,
)
advance-IsServer s c deleted h i = ground (
  arith,
  held-set_phase c deleted released s.workers h,
  length-set_phase c released s.workers,
  in_service-set_phase c deleted released s.workers h (λ e. cc) (λ e. cc),
)
advance-IsServer s c released h i = ground (
  arith,
  held-set_phase c released cancelled s.workers h,
  length-set_phase c cancelled s.workers,
  in_service-set_phase c released cancelled s.workers h (λ e. cc) (λ e. cc),
)
advance-IsServer s c cancelled h i = ground (arith, drop_worker_lem c s.workers h)

pub step-IsServer : {s t : Server} → Step s t → IsServer s → IsServer t
unfolding IsServer accept held in_service shut_down
step-IsServer (accepts c a l f) i = ground arith
step-IsServer (accept_fails a l) i = i
step-IsServer listener_closes i = i
step-IsServer (loop_ends a l) i = i
step-IsServer {s} (worker_advances c p h) i = advance-IsServer s c p h i
step-IsServer (wait_ends w z) i = i
step-IsServer (wait_times_out w) i = i

-- However the accept loop, its goroutines and the closing of the listener interleave: the slots taken
-- are those of the goroutines that have not released theirs, there are never more than 32, the map of
-- active connections has exactly the connections still in service, and the wait group counts the
-- goroutines that have not ended.
pub Reachable-IsServer : {s : Server} → Reachable s → IsServer s
unfolding IsServer start held in_service
Reachable-IsServer stays = ground arith
Reachable-IsServer (steps r t) = step-IsServer t (Reachable-IsServer r)
