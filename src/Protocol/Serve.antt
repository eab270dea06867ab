-- ===== src/Protocol/Serve.antt =====
-- The accept loop of pkg/protocol/protocol.go, ServeContext, with its goroutines as interleaved steps.
pub mod Invariant
pub mod Limits
pub mod Drain
use uni_chat_sdk.Prelude.{
  ℕ, suc, ◌+◌, ◌-◌, ltb, eqb, Bool, true, false, ◌&&◌, Option, none, some, List, [], ◌∷◌, ◌++◌,
  if◌then◌else◌, ◌≡◌,
}

abbrev pub serve_max_concurrent_connections : ℕ
serve_max_concurrent_connections = 32

-- A connection is a number: two open connections never share one.
-- How far the goroutine of a connection is through its deferred calls, which run last to first: it
-- serves; its entry is deleted from `active`; its slot is released; its context is cancelled. The last
-- one, `wg.Done`, ends it.
pub data Phase : Type 0 where
  serving : Phase
  deleted : Phase
  released : Phase
  cancelled : Phase

pub record Worker : Type 0 where
  pub conn : ℕ
  pub phase : Phase

-- The loop accepts, then its deferred function waits for the workers, then the call has returned.
pub data Stage : Type 0 where
  accepting : Stage
  waiting : Stage
  returned : Stage

-- `slots` is the number of values in the channel `sem`, `active` the keys of the map of that name, and
-- `wg` the count of the wait group. `cut` are the connections that the shutdown cancelled and closed,
-- `refused` those that were given to `writeBusyResponse`.
pub record Server : Type 0 where
  pub listening : Bool
  pub stage : Stage
  pub slots : ℕ
  pub active : List ℕ
  pub wg : ℕ
  pub workers : List Worker
  pub cut : List ℕ
  pub refused : List ℕ

unfoldable pub start : Server
start = record {
  listening = true;
  stage = accepting;
  slots = 0;
  active = [];
  wg = 0;
  workers = [];
  cut = [];
  refused = [];
}

-- `delete(active, conn)`; the list has each key once.
unfoldable pub remove : ℕ → List ℕ → List ℕ
remove c [] = []
remove c (x ∷ xs) = if eqb x c then xs else x ∷ remove c xs

unfoldable pub phase_of : ℕ → List Worker → Option Phase
phase_of c [] = none
phase_of c (w ∷ ws) = if eqb w.conn c then some w.phase else phase_of c ws

unfoldable pub set_phase : ℕ → Phase → List Worker → List Worker
set_phase c p [] = []
set_phase c p (w ∷ ws) = if eqb w.conn c then record w { phase = p } ∷ ws else w ∷ set_phase c p ws

unfoldable pub drop_worker : ℕ → List Worker → List Worker
drop_worker c [] = []
drop_worker c (w ∷ ws) = if eqb w.conn c then ws else w ∷ drop_worker c ws

-- A connection comes out of `Accept`: it takes a slot and a worker if the channel has room, else it is
-- refused. It is one step: what the goroutines do in between changes nothing that it looks at, but for
-- a slot that becomes free.
unfoldable pub accept : Server → ℕ → Server
accept s c =
    if ltb s.slots serve_max_concurrent_connections
    then record s {
      slots = suc s.slots;
      active = c ∷ s.active;
      wg = suc s.wg;
      workers = record { conn = c; phase = serving } ∷ s.workers;
    }
    else record s { refused = c ∷ s.refused }

-- The deferred function of the loop, as far as its wait.
unfoldable pub shut_down : Server → Server
shut_down s = record s { stage = waiting; cut = s.active ++ s.cut }

-- The next deferred call of a worker, by how far it is.
unfoldable pub advance : Server → ℕ → Phase → Server
advance s c serving = record s {
  active = remove c s.active;
  workers = set_phase c deleted s.workers;
}
advance s c deleted = record s { slots = s.slots - 1; workers = set_phase c released s.workers }
advance s c released = record s { workers = set_phase c cancelled s.workers }
advance s c cancelled = record s { wg = s.wg - 1; workers = drop_worker c s.workers }

-- One step of the loop, of a worker or of the outside. A failed `Accept` on an open listener changes
-- nothing but the time; the listener is closed by the goroutine that watches the context, or by its
-- owner; on a closed listener `Accept` fails with ErrClosed, which ends the loop.
pub data Step : Server → Server → Type 0 where
  accepts :
      {s : Server} (c : ℕ)
      → s.stage ≡ accepting
      → s.listening ≡ true
      → phase_of c s.workers ≡ none
      → Step s (accept s c)
  accept_fails : {s : Server} → s.stage ≡ accepting → s.listening ≡ true → Step s s
  listener_closes : {s : Server} → Step s (record s { listening = false })
  loop_ends : {s : Server} → s.stage ≡ accepting → s.listening ≡ false → Step s (shut_down s)
  worker_advances :
      {s : Server} (c : ℕ) (p : Phase) → phase_of c s.workers ≡ some p → Step s (advance s c p)
  wait_ends : {s : Server} → s.stage ≡ waiting → s.wg ≡ 0 → Step s (record s { stage = returned })
  wait_times_out : {s : Server} → s.stage ≡ waiting → Step s (record s { stage = returned })

-- The states that steps lead to from `s`.
pub data Run (s : Server) : Server → Type 0 where
  stays : Run s s
  steps : {t u : Server} → Run s t → Step t u → Run s u

abbrev pub Reachable : Server → Type 0
Reachable s = Run start s
