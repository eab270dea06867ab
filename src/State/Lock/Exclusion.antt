-- ===== src/State/Lock/Exclusion.antt =====
-- At most one process holds the lock of state/state.go.
use uni_chat_sdk.Prelude.{ℕ, eqb_iff, Bool, some, Option-cases, inl, inr, ◌≡◌, ◌≢◌, ◌↔◌, arith}
use uni_chat_sdk.State.Lock.{
  holding, System, set_phase, try_flock, take_turn, release, die, Step, begins, turns, releases,
  dies, Reachable, started, stepped,
}

-- The system's holder is the process that holds the lock.
IsHeld : System → Type 0
IsHeld s = (c : ℕ) → (s.holder ≡ some c) ↔ (s.phases c ≡ holding)

step-IsHeld : {s t : System} → Step s t → IsHeld s → IsHeld t
unfolding IsHeld set_phase try_flock take_turn release die
step-IsHeld {s} (begins c h) i d = ground (arith, i d, i c, eqb_iff d c)
step-IsHeld {s} (turns c is_done h) i d = ground (arith, i d, i c, eqb_iff d c)
step-IsHeld {s} (releases c h) i d = ground (arith, i d, i c, eqb_iff d c)
step-IsHeld {s} (dies c) i d = ground (arith, i d, i c, eqb_iff d c)

Reachable-IsHeld : {s : System} → Reachable s → IsHeld s
unfolding IsHeld
Reachable-IsHeld started c = ground arith
Reachable-IsHeld (stepped r t) c = step-IsHeld t (Reachable-IsHeld r) c

-- However the processes interleave, die and give up, two that hold the lock are one; and a process
-- that polls while none holds the lock gets it at that turn.
pub lock-exclusive :
    {s : System}
    → Reachable s
    → ((c d : ℕ) → s.phases c ≡ holding → s.phases d ≡ holding → c ≡ d)
      × ((c : ℕ) (is_done : Bool)
          → ((d : ℕ) → s.phases d ≢ holding)
          → (take_turn s c is_done).phases c ≡ holding)
unfolding IsHeld take_turn try_flock set_phase
lock-exclusive {s} r =
    let i = Reachable-IsHeld r in
    (
      (λ c d h k. ground (arith, i c, i d, h, k)),
      (λ c is_done n. elim (Option-cases s.holder) [
        | inl e ↦ ground (arith, e, eqb_iff c c)
        | inr (d, e) ↦ absurd (n d ((i d).0 e))
      ]),
    )
