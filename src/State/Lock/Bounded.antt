-- ===== src/State/Lock/Bounded.antt =====
-- Lock of state/state.go returns within its timeout.
use uni_chat_sdk.Prelude.{ℕ, suc, ◌*◌, leb, Bool, true, not, ◌&&◌, ◌||◌, List, [], ◌∷◌}
use uni_chat_sdk.State.Lock.{Turn, default_lock_timeout, lock_poll_interval}

-- The turns of the loop behind the first `n`: each of these has waited for the interval, so from the
-- turn on whose predecessors have waited for the timeout the context is done.
unfoldable pub is_timely : ℕ → List Turn → Bool
is_timely n [] = true
is_timely n (turn ∷ turns) =
    (not (leb default_lock_timeout (n * lock_poll_interval)) || turn.is_done)
    && is_timely (suc n) turns
