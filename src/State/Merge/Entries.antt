-- ===== src/State/Merge/Entries.antt =====
-- What the projection shows after checks that `MergePending` of state/state.go took in.
use mathlib.Core.Bool.{Bool-set}
use mathlib.Core.List.{Mem, not-mem-nil, mem-cons_self, mem-cons_of_mem, eq-or-mem_of_mem-cons}
use mathlib.Core.List.Perm
use mathlib.Core.Logic.{◌∨₁◌, ∨₁_prop, ∥∥₁_elim, ∥∥₁_prop, ∥∥₁_map}
use mathlib.Core.Logic.Or
use uni_chat_sdk.Prelude.{
  ℕ, Bytes, ◌≡◌, refl, ◌∙◌, ◌↔◌, ◌⊎◌, inl, inr, true, ◌||◌, Option, some, List, [], ◌∷◌, arith,
  ◌>>=◌, Bool-cases,
}
use uni_chat_sdk.Prelude.Time.{Time, Rfc3339, IsRfc3339}
use uni_chat_sdk.Protocol.Types.{CheckItem}
use uni_chat_sdk.State.Defs.{State}
use uni_chat_sdk.State.Merge.{Progress, merge_event, merge_batch, merge_pending}
use uni_chat_sdk.State.Merge.Contract.{
  arranged, arranged-perm, after_watch, after_request, merge_watch, merge_request,
}
use uni_chat_sdk.State.Merge.Twice.{merge_pending-pass}
use uni_chat_sdk.State.Pending.Once.{apply_all}
use uni_chat_sdk.State.Pending.Latest.{
  matters, has_time, Shows, Given, shows_same, shows_other, shows_nothing, shows_post,
}
use uni_chat_sdk.State.Pending.Converge.{IsDated, IsUnheard, apply_pending-Shows, apply_all-Shows}
use uni_chat_sdk.State.Pending.AnyOrder.{IsApart, SameEntry, same_entry}

-- Checks, each with the clock of its run of `MergePending` and with its events.
abbrev pub Checks : Type 0
Checks = List ((ℕ → Time) × List CheckItem)

-- The event came in with one of the checks.
unfoldable pub Delivered : Checks → CheckItem → Type 0
Delivered [] i = ⊥
Delivered ((now, items) ∷ checks) i = Mem i items ∨₁ Delivered checks i

Delivered-prop : (checks : Checks) (i : CheckItem) → IsProp (Delivered checks i)
unfolding Delivered
Delivered-prop [] i = λ a b. absurd a
Delivered-prop ((now, items) ∷ checks) i = ∨₁_prop

or_none_iff : {A : Type 0} → ∥ A ∥₁ ↔ (A ∨₁ ⊥)
or_none_iff = (λ a. ∥∥₁_map a (λ x. inl x), λ h. Or.elim ∥∥₁_prop h (λ a. ∣ a ∣₁) (λ n. absurd n))

from_none_iff : {A : Type 0} → IsProp A → A ↔ (⊥ ∨₁ A)
from_none_iff prop = ((λ a. Or.inr a), λ h. Or.elim prop h (λ n. absurd n) (λ a. a))

regroup : {A B C : Type 0} → (A ∨₁ (B ∨₁ C)) ↔ ((A ∨₁ B) ∨₁ C)
regroup = (
  λ h.
      Or.elim ∨₁_prop h (λ a. Or.inl (Or.inl a))
        (λ k. Or.elim ∨₁_prop k (λ b. Or.inl (Or.inr b)) (λ c. Or.inr c)),
  λ h.
      Or.elim ∨₁_prop h (λ k. Or.elim ∨₁_prop k (λ a. Or.inl a) (λ b. Or.inr (Or.inl b)))
        (λ c. Or.inr (Or.inr c)),
)

-- One more event, then the rest of the list.
mem_turn :
    (P : CheckItem → Type 0) (x : CheckItem) (xs : List CheckItem) (i : CheckItem)
    → (P i ∨₁ Mem i (x ∷ xs)) ↔ (((i ≡ x) ⊎ P i) ∨₁ Mem i xs)
mem_turn P x xs i = (
  λ h.
      Or.elim ∨₁_prop h (λ p. Or.inl (inr p))
        (λ m. Or.elim ∨₁_prop (eq-or-mem_of_mem-cons m) (λ e. Or.inl (inl e)) (λ n. Or.inr n)),
  λ h.
      Or.elim ∨₁_prop h (λ s. elim s [ inl e ↦ Or.inr (rw e mem-cons_self) | inr p ↦ Or.inl p ])
        (λ m. Or.inr (mem-cons_of_mem x m)),
)

module _ (clock : Rfc3339) where
  shows_squash :
      {s : State} {k : Bytes} {P : CheckItem → Type 0}
      → Shows clock s k P
      → Shows clock s k (λ i. ∥ P i ∥₁)
  shows_squash (shows_nothing a b n) = shows_nothing a b (λ i q. ∥∥₁_elim q (Bool-set _ _) (n i))
  shows_squash (shows_post m seen h d e n) =
      shows_post m ∣ seen ∣₁ h d e (λ i q hi. ∥∥₁_elim q (Bool-set _ _) (λ p. n i p hi))

  module _ (ok : IsRfc3339 clock) where
    merge_event-Shows :
        (now : ℕ → Time) (p : Progress) (x : CheckItem) (k : Bytes) (P : CheckItem → Type 0)
        → (matters k x ≡ true → has_time clock x ≡ true)
        → Shows clock p.current k P
        → (q : Progress) × (merge_event clock now p x ≡ some q)
          × Shows clock q.current k (λ i. (i ≡ x) ⊎ P i)
    unfolding matters
    merge_event-Shows now p x k P dated old = elim (Bool-cases (x.own || x.addressed)) [
      | inl h ↦
          let (t, b, e, shows) =
            apply_pending-Shows clock ok (now p.calls) p.current k x P dated old in
          (
            after_request clock now p x t b,
            merge_request clock now p x t b h e,
            unfold after_request in shows,
          )
      | inr h ↦ (
        after_watch clock now p x,
        merge_watch clock now p x h,
        unfold after_watch in shows_other clock ok x (ground (arith, h)) old,
      )
    ]

    merge_batch-Shows :
        (now : ℕ → Time) (xs : List CheckItem) (p : Progress) (k : Bytes) (P : CheckItem → Type 0)
        → IsDated clock k (λ i. Mem i xs)
        → Shows clock p.current k P
        → (q : Progress) × (merge_batch clock now p xs ≡ some q)
          × Shows clock q.current k (λ i. P i ∨₁ Mem i xs)
    unfolding merge_batch IsDated
    merge_batch-Shows now [] p k P dated old = (
      p,
      refl,
      shows_same clock refl refl
          (λ i. (
            λ h. Or.elim ∥∥₁_prop h (λ a. ∣ a ∣₁) (λ m. absurd (not-mem-nil m)),
            λ a. ∥∥₁_map a (λ x. inl x),
          ))
          (shows_squash old),
    )
    merge_batch-Shows now (x ∷ xs) p k P dated old =
        let (q, e, mid) = merge_event-Shows now p x k P (dated x mem-cons_self) old in
        let (r, f, shows) =
          merge_batch-Shows now xs q k (λ i. (i ≡ x) ⊎ P i) (λ i m. dated i (mem-cons_of_mem x m))
            mid in
        (r, rw e f, shows_same clock refl refl (mem_turn P x xs) shows)

    merge_pending-Shows :
        (now : ℕ → Time) (items : List CheckItem) (s : State) (k : Bytes) (P : CheckItem → Type 0)
        → IsDated clock k (λ i. Mem i items)
        → Shows clock s k P
        → (t : State) × (accepted : List CheckItem) × (merge_pending clock now s items
            ≡ some (t, accepted))
          × Shows clock t k (λ i. P i ∨₁ Mem i items)
    unfolding IsDated
    merge_pending-Shows now items s k P dated old =
        let perm = arranged-perm clock items in
        let (q, e, shows) =
          merge_batch-Shows now (arranged clock items)
            (record { calls = 0; current = s; accepted = [] }) k P
            (λ i m. dated i ((Perm.mem_iff perm).0 m)) old in
        (
          q.current,
          q.accepted,
          merge_pending-pass clock now s items ∙ rw e,
          shows_same clock refl refl
              (λ i. (Or.imp (λ a. a) (Perm.mem_iff perm).1, Or.imp (λ a. a) (Perm.mem_iff perm).0))
              shows,
        )

  -- The state after a series of checks; `none` is a panic.
  unfoldable pub merge_all : Checks → State → Option State
  merge_all [] s = some s
  merge_all ((now, items) ∷ checks) s =
      merge_pending clock now s items >>= λ (t, accepted). merge_all checks t

module _ (clock : Rfc3339) (ok : IsRfc3339 clock) where
  merge_all-Shows :
      (checks : Checks) (s : State) (k : Bytes) (P : CheckItem → Type 0)
      → IsDated clock k (Delivered checks)
      → Shows clock s k P
      → (u : State) × (merge_all clock checks s ≡ some u)
        × Shows clock u k (λ i. P i ∨₁ Delivered checks i)
  unfolding merge_all IsDated Delivered
  merge_all-Shows [] s k P dated old = (
    s,
    refl,
    shows_same clock refl refl (λ i. (or_none_iff.1, or_none_iff.0)) (shows_squash clock old),
  )
  merge_all-Shows ((now, items) ∷ checks) s k P dated old =
      let (t, accepted, e, mid) =
        merge_pending-Shows clock ok now items s k P (λ i m. dated i (Or.inl m)) old in
      let (u, f, shows) =
        merge_all-Shows checks t k (λ i. P i ∨₁ Mem i items) (λ i d. dated i (Or.inr d)) mid in
      (u, rw e f, shows_same clock refl refl (λ i. regroup) shows)

  -- With a clock that reads back what it prints: a series of checks that `MergePending` takes in, and
  -- calls of `ApplyPending` with the same posts one by one, in any order, any number of times each and
  -- at any times of day, from two states in which the channel has no entry, all return and leave the
  -- same pending item and the same resolution in the channel, if each of its posts that matters, an
  -- own one or a valid addressed one, has a valid time and no two such posts have the same time.
  pub merge_all-apply_all :
      (checks : Checks) (calls : List (Time × CheckItem)) (s t : State) (k : Bytes)
      → ((i : CheckItem) → Delivered checks i ↔ ∥ Given clock calls i ∥₁)
      → IsUnheard k s
      → IsUnheard k t
      → IsDated clock k (Delivered checks)
      → IsApart clock k (Delivered checks)
      → (u v : State) × (merge_all clock checks s ≡ some u)
        × (apply_all clock calls t ≡ some v)
        × SameEntry k u v
  unfolding IsUnheard IsDated
  merge_all-apply_all checks calls s t k same su tu dated apart =
      let (u, e, a) =
        merge_all-Shows checks s k (λ i. ⊥) dated (shows_nothing su.0 su.1 (λ i n. absurd n)) in
      let (v, f, b) = apply_all-Shows clock ok calls t k tu (λ i g. dated i ((same i).1 ∣ g ∣₁)) in
      (
        u,
        v,
        e,
        f,
        same_entry clock ok u v same apart
            (shows_same clock refl refl (λ i. from_none_iff (Delivered-prop checks i)) a)
            (shows_squash clock b),
      )
