-- ===== src/Protocol/Serve/Limits.antt =====
-- What the accept loop of pkg/protocol/protocol.go grants, refuses and ends.
use uni_chat_sdk.Prelude.{
  ltb, if◌then◌else◌, ℕ, ◌≤◌, eqb, eqb_iff, Bool, true, false, ◌&&◌, ◌||◌, List, [], ◌∷◌, ◌++◌, ◌≡◌,
  ◌≢◌, refl, length, arith, ◌∙◌,
}
use uni_chat_sdk.Protocol.Serve.{
  Phase, serving, deleted, released, cancelled, Worker, accepting, Server, start, set_phase,
  drop_worker, accept, shut_down, advance, Step, accepts, accept_fails, listener_closes, loop_ends,
  worker_advances, wait_ends, wait_times_out, Reachable, stays, steps,
}
use uni_chat_sdk.Protocol.Serve.Invariant.{held, in_service, IsServer, Reachable-IsServer}

length-in_service : (ws : List Worker) → length (in_service ws) ≤ held ws
unfolding in_service held
length-in_service [] = omega arith
length-in_service (w ∷ ws) = ground (arith, length-in_service ws)

-- In every reachable state at most 32 goroutines hold a slot and at most 32 connections are in
-- service. The next connection is taken into service if fewer than 32 goroutines hold a slot; else it
-- is refused, and the connections in service stay.
pub accept_lem :
    {s : Server}
    → Reachable s
    → (c : ℕ)
    → (length (in_service s.workers) ≤ 32)
      × (held s.workers ≤ 32)
      × (in_service (accept s c).workers
          ≡ (if ltb (held s.workers) 32 then c ∷ in_service s.workers else in_service s.workers))
      × ((accept s c).refused ≡ (if ltb (held s.workers) 32 then s.refused else c ∷ s.refused))
unfolding IsServer accept in_service
accept_lem {s} r c = ground (arith, Reachable-IsServer r, length-in_service s.workers)

pub member : ℕ → List ℕ → Bool
member c [] = false
member c (x ∷ xs) = eqb x c || member c xs

pub all_in : List ℕ → List ℕ → Bool
all_in [] ys = true
all_in (x ∷ xs) ys = member x ys && all_in xs ys

-- Once the loop has ended, all connections in service have been cancelled and closed.
IsCut : Server → Type 0
IsCut s = s.stage ≢ accepting → all_in (in_service s.workers) s.cut ≡ true

member-append : (c : ℕ) (xs ys : List ℕ) → member c (xs ++ ys) ≡ (member c xs || member c ys)
unfolding member
member-append c [] ys = refl
member-append c (x ∷ xs) ys = ground (arith, member-append c xs ys)

all_in-∷ : (x : ℕ) (xs ys : List ℕ) → all_in xs ys ≡ true → all_in xs (x ∷ ys) ≡ true
unfolding all_in member
all_in-∷ x [] ys h = refl
all_in-∷ x (z ∷ xs) ys h = ground (arith, all_in-∷ x xs ys)

all_in-append : (xs ys : List ℕ) → all_in xs (xs ++ ys) ≡ true
unfolding all_in member
all_in-append [] ys = refl
all_in-append (x ∷ xs) ys =
    ground (arith, all_in-∷ x xs (xs ++ ys) (all_in-append xs ys), eqb_iff x x)

all_in-set_phase :
    (c : ℕ) (q : Phase) (ws : List Worker) (ys : List ℕ)
    → q ≢ serving
    → all_in (in_service ws) ys ≡ true
    → all_in (in_service (set_phase c q ws)) ys ≡ true
unfolding in_service set_phase all_in
all_in-set_phase c q [] ys n a = a
all_in-set_phase c q (w ∷ ws) ys n a = ground (arith, n, all_in-set_phase c q ws ys)

all_in-drop_worker :
    (c : ℕ) (ws : List Worker) (ys : List ℕ)
    → all_in (in_service ws) ys ≡ true
    → all_in (in_service (drop_worker c ws)) ys ≡ true
unfolding in_service drop_worker all_in
all_in-drop_worker c [] ys a = a
all_in-drop_worker c (w ∷ ws) ys a = ground (arith, all_in-drop_worker c ws ys)

advance-IsCut : (s : Server) (c : ℕ) (p : Phase) → IsCut s → IsCut (advance s c p)
unfolding IsCut advance
advance-IsCut s c serving i n = all_in-set_phase c deleted s.workers s.cut (λ e. cc) (i n)
advance-IsCut s c deleted i n = all_in-set_phase c released s.workers s.cut (λ e. cc) (i n)
advance-IsCut s c released i n = all_in-set_phase c cancelled s.workers s.cut (λ e. cc) (i n)
advance-IsCut s c cancelled i n = all_in-drop_worker c s.workers s.cut (i n)

stage-accept : (s : Server) (c : ℕ) → (accept s c).stage ≡ s.stage
unfolding accept
stage-accept s c = ground arith

step-IsCut : {s t : Server} → Step s t → IsServer s → IsCut s → IsCut t
unfolding IsCut IsServer shut_down
step-IsCut {s} (accepts c a l f) v i n = absurd (n (stage-accept s c ∙ a))
step-IsCut (accept_fails a l) v i n = i n
step-IsCut listener_closes v i n = i n
step-IsCut {s} (loop_ends a l) v i n = rw v.2 (all_in-append (in_service s.workers) s.cut)
step-IsCut {s} (worker_advances c p h) v i n = advance-IsCut s c p i n
step-IsCut (wait_ends w z) v i n = i (λ e. cc)
step-IsCut (wait_times_out w) v i n = i (λ e. cc)

-- Once the loop has ended, by the closing of the listener, every connection still in service has had
-- its context cancelled and its socket closed, also after the call has returned.
pub Reachable-cut :
    {s : Server} → Reachable s → s.stage ≢ accepting → all_in (in_service s.workers) s.cut ≡ true
unfolding IsCut start
Reachable-cut stays n = absurd (n refl)
Reachable-cut (steps r t) n = step-IsCut t (Reachable-IsServer r) (Reachable-cut r) n
