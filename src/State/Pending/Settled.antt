-- ===== src/State/Pending/Settled.antt =====
-- What `ApplyPending` (state/state.go) refuses once it refuses for good, and what it has seen once it
-- refuses from then on.
use uni_chat_sdk.Prelude.{
  ◌≡◌, refl, ◌∙◌, ap, ◌==◌, Bool, true, false, not, ◌&&◌, ◌||◌, some, [], arith, if◌then◌else◌,
  Bool-cases, inl, inr,
}
use uni_chat_sdk.Prelude.Time.{Time, Rfc3339, IsRfc3339}
use uni_chat_sdk.Protocol.Types.{CheckItem}
use uni_chat_sdk.State.Defs.{State, valid_pending}
use uni_chat_sdk.State.Order.{compare_items_refl}
use uni_chat_sdk.State.Pending.{ensure_pending, apply_pending, apply_ensured}
use uni_chat_sdk.State.Pending.Outcome.{
  IsNews, closed, opened, close_pending_lem, open_pending_lem, apply_pending_cases,
}
use uni_chat_sdk.State.Pending.Forward.{resolution_time-ne-empty, own_resolution}
use uni_chat_sdk.State.Pending.Frontier.{
  behind, behind_time, behind-ensured, behind-opened, behind-closed, behind-closed_late,
  behind-opened_late, apply_pending-behind, behind_pending-item, behind_resolution-time,
}

or_keeps : {a b : Bool} (n : Bool) → (a ≡ true → b ≡ true) → (n || a) ≡ true → (n || b) ≡ true
or_keeps true f h = refl
or_keeps false f h = f h

or_right : {b : Bool} (n : Bool) → b ≡ true → (n || b) ≡ true
or_right true h = refl
or_right false h = h

module _ (clock : Rfc3339) (ok : IsRfc3339 clock) where
  -- What no state lets in.
  never : CheckItem → Bool
  never i = (i.channel_id == []) || (not i.own && not (i.addressed && valid_pending i))

  pub refuses : State → CheckItem → Bool
  refuses s i = never i || behind clock s i

  pub apply_pending-refuses :
      (now : Time) (s : State) (i : CheckItem)
      → refuses s i ≡ true
      → apply_pending clock now s i ≡ some (ensure_pending s, false)
  unfolding refuses never apply_pending apply_ensured
  apply_pending-refuses now s i h = elim (Bool-cases (behind clock s i)) [
    | inl e ↦ unfold apply_pending apply_ensured in apply_pending-behind clock now s i e
    | inr e ↦ ground arith
  ]

  pub refuses-ensured : (s : State) (i : CheckItem) → refuses (ensure_pending s) i ≡ refuses s i
  unfolding refuses
  refuses-ensured s i = ap (λ b. never i || b) (behind-ensured clock s i)

  -- The item itself is settled, and no item that was refused gets in.
  pub record Settles (s t : State) (j : CheckItem) : Type 0 where
    pub keeps : (i : CheckItem) → refuses s i ≡ true → refuses t i ≡ true
    pub settles : refuses t j ≡ true

  closed-Settles :
      (now : Time) (s : State) (j : CheckItem)
      → IsNews clock now s j
      → Settles s (closed clock now s j) j
  unfolding refuses
  closed-Settles now s j news = record {
    keeps = λ i. or_keeps (never i) (λ late. behind-closed_late clock now s i j late news ok);
    settles = or_right (never j) (
        behind-closed clock now s j j refl (
          unfold behind_time in
          ground (arith, resolution_time-ne-empty clock ok now j, own_resolution clock ok now j)));
  }

  opened-Settles :
      (now : Time) (s : State) (j : CheckItem)
      → IsNews clock now s j
      → Settles s (opened clock now s j) j
  unfolding refuses
  opened-Settles now s j news = record {
    keeps = λ i. or_keeps (never i) (λ late. behind-opened_late clock now s i j late news);
    settles =
        or_right (never j)
          (behind-opened clock now s j j refl (ground (arith, compare_items_refl clock j)));
  }

  pub takes_news :
      (now : Time) (s : State) (j : CheckItem)
      → refuses s j ≡ false
      → apply_pending clock now s j
        ≡ some (if j.own then closed clock now s j else opened clock now s j, true)
  unfolding refuses never behind apply_pending apply_ensured
  takes_news now s j h = ground (
    arith,
    behind_pending-item clock s j,
    behind_resolution-time clock s j,
    close_pending_lem clock now s j,
    open_pending_lem clock now s j,
  )

  -- A post that could be let in is refused only for what its channel shows.
  pub refused-behind :
      (now : Time) (s : State) (j : CheckItem)
      → (j.channel_id == []) ≡ false
      → (j.own || (j.addressed && valid_pending j)) ≡ true
      → apply_pending clock now s j ≡ some (ensure_pending s, false)
      → behind clock s j ≡ true
  unfolding refuses never
  refused-behind now s j named may refused = elim (Bool-cases (behind clock s j)) [
    | inl e ↦ e
    | inr e ↦ absurd (ground (arith, refused, named, may, e, takes_news now s j))
  ]

  ensured-Settles :
      (now : Time) (s : State) (j : CheckItem)
      → apply_pending clock now s j ≡ some (ensure_pending s, false)
      → Settles s (ensure_pending s) j
  ensured-Settles now s j refused = record {
    keeps = λ i h. refuses-ensured s i ∙ h;
    settles = elim (Bool-cases (refuses s j)) [
      | inl h ↦ refuses-ensured s j ∙ h
      | inr h ↦ absurd (ground (arith, refused, takes_news now s j h))
    ];
  }

  pub apply_pending-Settles :
      (now : Time) (s : State) (j : CheckItem)
      → (t : State) × (b : Bool) × (apply_pending clock now s j ≡ some (t, b)) × Settles s t j
  apply_pending-Settles now s j =
      apply_pending_cases clock now s j (λ t _. Settles s t j)
        (λ refused. ensured-Settles now s j (refused now)) (λ news _. closed-Settles now s j news)
        (λ news _. opened-Settles now s j news)
