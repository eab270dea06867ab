-- ===== src/State/LockTests.antt =====
-- Runs of state/state.go's LockContext with two processes.
use uni_chat_sdk.Prelude.{
  zero, suc, ◌*◌, leb, ℕ, text, ◌≡◌, ◌≢◌, Bool, false, none, List, [], ◌∷◌, refl,
}
use uni_chat_sdk.State.Lock.{
  default_lock_timeout, lock_poll_interval, would_block, holding, polling, System, initial,
  set_phase, try_flock, take_turn, begins, turns, Reachable, started, stepped, Turn, Context, Setup,
}
use uni_chat_sdk.State.Lock.Exclusion.{lock-exclusive}

-- The process 1 has the lock, the process 2 polls.
abbrev contended : System
contended = set_phase (take_turn (set_phase initial 1 polling) 1 false) 2 polling

contended-Reachable : Reachable contended
unfolding set_phase take_turn try_flock
contended-Reachable =
    stepped (stepped (stepped started (begins 1 refl)) (turns 1 false refl)) (begins 2 refl)

lock-exclusive_example :
    ((c d : ℕ) → contended.phases c ≡ holding → contended.phases d ≡ holding → c ≡ d)
    × ((c : ℕ) (is_done : Bool)
        → ((d : ℕ) → contended.phases d ≢ holding)
        → (take_turn contended c is_done).phases c ≡ holding)
lock-exclusive_example = lock-exclusive contended-Reachable

abbrev no_trouble : Setup
no_trouble = record { mkdir = none; chmod_dir = none; open_file = none; chmod_file = none }

abbrev no_deadline : Context
no_deadline = record { deadline = none; err = text "context canceled" }

-- The turns of a lock that stays with another process, behind `n` turns.
unfoldable busy : ℕ → ℕ → List Turn
busy zero n = []
busy (suc k) n =
    record { flock = would_block; is_done = leb default_lock_timeout (n * lock_poll_interval) }
    ∷ busy k (suc n)
