-- ===== src/State/Pending/Once.antt =====
-- `ApplyPending` of state/state.go takes an item at most once, over any number of calls.
use uni_chat_sdk.Prelude.{◌≡◌, refl, Bool, true, false, Option, some, List, [], ◌∷◌, ◌>>=◌}
use uni_chat_sdk.Prelude.Time.{Time, Rfc3339, IsRfc3339}
use uni_chat_sdk.Protocol.Types.{CheckItem}
use uni_chat_sdk.State.Defs.{State}
use uni_chat_sdk.State.Pending.{ensure_pending, apply_pending}
use uni_chat_sdk.State.Pending.Settled.{refuses, apply_pending-refuses, apply_pending-Settles}

module _ (clock : Rfc3339) where
  -- Calls of `ApplyPending`, each at its time.
  unfoldable pub apply_all : List (Time × CheckItem) → State → Option State
  apply_all [] s = some s
  apply_all ((now, item) ∷ calls) s =
      apply_pending clock now s item >>= λ (t, accepted). apply_all calls t

module _ (clock : Rfc3339) (ok : IsRfc3339 clock) where
  apply_all-refuses :
      (calls : List (Time × CheckItem)) (s : State) (item : CheckItem)
      → refuses clock ok s item ≡ true
      → (u : State) × (apply_all clock calls s ≡ some u) × (refuses clock ok u item ≡ true)
  unfolding apply_all
  apply_all-refuses [] s item h = (s, refl, h)
  apply_all-refuses ((now, j) ∷ calls) s item h =
      let (t, b, e, k) = apply_pending-Settles clock ok now s j in
      let (u, f, r) = apply_all-refuses calls t item (k.keeps item h) in (u, rw e f, r)

  -- With a clock that reads back what it prints: an item that was given to `ApplyPending` once,
  -- whatever the answer, is refused after any number of further calls with any items. All these calls
  -- return.
  pub apply_pending-once :
      (now later : Time) (s : State) (item : CheckItem) (calls : List (Time × CheckItem))
      → (t : State) × (accepted : Bool) × (u : State) × (apply_pending clock now s item
          ≡ some (t, accepted))
        × (apply_all clock calls t ≡ some u)
        × (apply_pending clock later u item ≡ some (ensure_pending u, false))
  apply_pending-once now later s item calls =
      let (t, b, e, k) = apply_pending-Settles clock ok now s item in
      let (u, f, r) = apply_all-refuses calls t item k.settles in
      (t, b, u, e, f, apply_pending-refuses clock ok later u item r)
