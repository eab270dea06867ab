-- ===== src/Protocol/Serve/Drain.antt =====
-- The shutdown of pkg/protocol/protocol.go's ServeContext comes to its end.
use uni_chat_sdk.Prelude.{ℕ, eqb_iff, false, some, List, [], ◌∷◌, ◌≡◌, refl, length, arith, ap, ◌∙◌}
use uni_chat_sdk.Protocol.Serve.{
  Phase, serving, deleted, released, cancelled, Worker, Stage, accepting, waiting, returned, Server,
  phase_of, set_phase, drop_worker, shut_down, advance, listener_closes, loop_ends, worker_advances,
  wait_ends, Reachable, Run, stays, steps,
}
use uni_chat_sdk.Protocol.Serve.Invariant.{held, in_service, IsServer, Reachable-IsServer}

-- A run that ends with the workers `ws` in the stage that it began in.
RunsTo : Server → List Worker → Type 0
RunsTo s ws = (t : Server) × Run s t × (t.workers ≡ ws) × (t.stage ≡ s.stage)

Run-append : {s t u : Server} → Run s t → Run t u → Run s u
Run-append r stays = r
Run-append r (steps q x) = steps (Run-append r q) x

phase_of-head : (w : Worker) (ws : List Worker) → phase_of w.conn (w ∷ ws) ≡ some w.phase
unfolding phase_of
phase_of-head w ws = ground (arith, eqb_iff w.conn w.conn)

set_phase-head :
    (w : Worker) (p : Phase) (ws : List Worker)
    → set_phase w.conn p (w ∷ ws) ≡ record w { phase = p } ∷ ws
unfolding set_phase
set_phase-head w p ws = ground (arith, eqb_iff w.conn w.conn)

drop_worker-head : (w : Worker) (ws : List Worker) → drop_worker w.conn (w ∷ ws) ≡ ws
unfolding drop_worker
drop_worker-head w ws = ground (arith, eqb_iff w.conn w.conn)

-- A worker's next deferred call, then the rest.
goes_on :
    (s : Server) (c : ℕ) (p q : Phase) (ws : List Worker)
    → s.workers ≡ record { conn = c; phase = p } ∷ ws
    → (advance s c p).workers ≡ set_phase c q s.workers
    → (advance s c p).stage ≡ s.stage
    → ((t : Server) → t.workers ≡ record { conn = c; phase = q } ∷ ws → RunsTo t ws)
    → RunsTo s ws
unfolding RunsTo
goes_on s c p q ws e m k f =
    let x = worker_advances c p (ap (phase_of c) e ∙ phase_of-head _ ws) in
    let (t, r, w, g) = f (advance s c p) (m ∙ ap (set_phase c q) e ∙ set_phase-head _ q ws) in
    (t, Run-append (steps stays x) r, w, g ∙ k)

end_cancelled :
    (c : ℕ) (ws : List Worker) (s : Server)
    → s.workers ≡ record { conn = c; phase = cancelled } ∷ ws
    → RunsTo s ws
unfolding RunsTo advance
end_cancelled c ws s e = (
  advance s c cancelled,
  steps stays (worker_advances c cancelled (ap (phase_of c) e ∙ phase_of-head _ ws)),
  ap (drop_worker c) e ∙ drop_worker-head _ ws,
  refl,
)

-- The first worker runs its deferred calls to the end.
finish :
    (p : Phase) (c : ℕ) (ws : List Worker) (s : Server)
    → s.workers ≡ record { conn = c; phase = p } ∷ ws
    → RunsTo s ws
unfolding advance
finish p c ws =
    let end_released : (s : Server)
        → s.workers ≡ record { conn = c; phase = released } ∷ ws
        → RunsTo s ws =
      λ s e. goes_on s c released cancelled ws e refl refl (end_cancelled c ws) in
    let end_deleted : (s : Server)
        → s.workers ≡ record { conn = c; phase = deleted } ∷ ws
        → RunsTo s ws =
      λ s e. goes_on s c deleted released ws e refl refl end_released in
    elim p as (λ k. (s : Server) → s.workers ≡ record { conn = c; phase = k } ∷ ws → RunsTo s ws) [
      | serving ↦ λ s e. goes_on s c serving deleted ws e refl refl end_deleted
      | deleted ↦ end_deleted
      | released ↦ end_released
      | cancelled ↦ end_cancelled c ws
    ]

finish_all : (ws : List Worker) (s : Server) → s.workers ≡ ws → RunsTo s []
unfolding RunsTo
finish_all [] s e = (s, stays, e, refl)
finish_all (w ∷ ws) s e =
    let (t, r, h, g) = finish w.phase w.conn ws s e in
    let (u, q, i, k) = finish_all ws t h in (u, Run-append r q, i, k ∙ g)

-- From an idle server on, the loop ends and the wait ends by itself.
close_up :
    (p : Stage) (s : Server)
    → s.stage ≡ p
    → s.workers ≡ []
    → s.wg ≡ 0
    → (t : Server) × Run s t × (t.stage ≡ returned) × (t.workers ≡ [])
unfolding shut_down
close_up returned s e w z = (s, stays, e, w)
close_up waiting s e w z = (record s { stage = returned }, steps stays (wait_ends e z), refl, w)
close_up accepting s e w z =
    let closing : Run s (record s { listening = false }) = steps stays listener_closes in
    let ending = steps closing (loop_ends e refl) in (_, steps ending (wait_ends refl z), refl, w)

-- From every state that the server can reach there is a run to its return in which every goroutine has
-- ended, no connection is active, no slot is taken and the wait group is at zero.
pub drains :
    {s : Server}
    → Reachable s
    → (t : Server) × Run s t
      × (t.stage ≡ returned)
      × (t.workers ≡ [])
      × (t.active ≡ [])
      × (t.slots ≡ 0)
      × (t.wg ≡ 0)
unfolding RunsTo IsServer held in_service
drains {s} r =
    let (t, q, w, g) = finish_all s.workers s refl in
    let i = Reachable-IsServer (Run-append r q) in
    let (u, k, e, v) = close_up t.stage t refl w (i.3 ∙ ap length w) in
    let j = Reachable-IsServer (Run-append r (Run-append q k)) in
    (u, Run-append q k, e, v, j.2 ∙ ap in_service v, j.0 ∙ ap held v, j.3 ∙ ap length v)
