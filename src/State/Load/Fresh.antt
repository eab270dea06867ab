-- ===== src/State/Load/Fresh.antt =====
-- After `LoadState` the revision counter of state/state.go gives stamps that no channel has.
use mathlib.Core.Path.{subst}
use uni_chat_sdk.Prelude.{
  ℕ, Bytes, ◌≡◌, refl, sym, ◌∙◌, ◌+◌, ◌^◌, ◌<◌, Bool, true, false, ◌⊎◌, inl, inr, Option, none,
  some, arith,
}
use uni_chat_sdk.Prelude.GoMap.{index}
use uni_chat_sdk.Prelude.Time.{Time, Rfc3339}
use uni_chat_sdk.Protocol.Types.{CheckItem}
use uni_chat_sdk.State.Defs.{State, next_u64}
use uni_chat_sdk.State.Pending.{apply_pending}
use uni_chat_sdk.State.Pending.Effects.{Effect, apply_pending-Effect}
use uni_chat_sdk.State.Load.{contents, initial_state, load_state}
use uni_chat_sdk.State.Load.Normal.{IsNormal, load_state-IsNormal}

next_u64_small : (n : ℕ) → n + 1 < 2 ^ 64 → next_u64 n ≡ n + 1
next_u64_small n h = omega arith

normal-fresh :
    (d t u : State) (channel : Bytes)
    → IsNormal d t
    → t.revision + 1 < 2 ^ 64
    → Effect channel t u true
    → (k : Bytes) (v : ℕ) → index t.pending_revision k ≡ some v
    → v < u.revision
normal-fresh d t u channel normal small effect k v h = omega (
  arith,
  normal.covers k v (sym (normal.stamps k) ∙ h),
  effect.stamped.counter ∙ next_u64_small t.revision small,
)

fresh_cases :
    (d t u : State) (channel : Bytes) (accepted : Bool)
    → IsNormal d t
    → t.revision + 1 < 2 ^ 64
    → Effect channel t u accepted
    → (accepted ≡ false)
      ⊎ ((k : Bytes) (v : ℕ) → index t.pending_revision k ≡ some v → v < u.revision)
fresh_cases d t u channel true normal small effect =
    inr (normal-fresh d t u channel normal small effect)
fresh_cases d t u channel false normal small effect = inl refl

-- On a loaded state whose revision has not reached the end of its range, `ApplyPending` refuses the
-- item or its new revision is greater than every stamp of the loaded state.
pub load_state-apply_pending :
    (clock : Rfc3339) (now : Time) (decode : Bytes → State → State × Option Bytes) (b : Bytes)
    (d t : State) (item : CheckItem)
    → decode b initial_state ≡ (d, none)
    → load_state decode (contents b) ≡ (t, none)
    → t.revision + 1 < 2 ^ 64
    → (u : State) × (accepted : Bool) × (apply_pending clock now t item ≡ some (u, accepted))
      × ((accepted ≡ false)
          ⊎ ((k : Bytes) (v : ℕ) → index t.pending_revision k ≡ some v → v < u.revision))
load_state-apply_pending clock now decode b d t item h l small =
    let (t', l', normal') = load_state-IsNormal decode b d h in
    let (u, accepted, e, effect) = apply_pending-Effect clock now t item in
    let same : t' ≡ t = cc (l, l') in
    (
      u,
      accepted,
      e,
      fresh_cases d t u item.channel_id accepted (subst (IsNormal d) same normal') small effect,
    )
