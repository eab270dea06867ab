-- ===== src/State/Pending/Frontier.antt =====
-- What `ApplyPending` of state/state.go has refused or taken once, it refuses for good.
use uni_chat_sdk.Prelude.{
  Bytes, ◌≡◌, sym, ◌∙◌, ap, ◌==◌, ==_iff, Bool, true, false, inl, inr, ◌||◌, Option, none, some, [],
  arith, if◌then◌else◌, Bool-cases,
}
use uni_chat_sdk.Prelude.GoMap.{index, index-ensure, index-put_self, put}
use uni_chat_sdk.Prelude.Time.{Time, Rfc3339, IsRfc3339}
use uni_chat_sdk.Protocol.Types.{CheckItem}
use uni_chat_sdk.State.Defs.{State, compare_items, compare_item_to_resolution, not_after}
use uni_chat_sdk.State.Order.{
  compare_items_lem, compare_items-Chain, compare_item_to_resolution_lem,
}
use uni_chat_sdk.State.Pending.{
  or_empty, ensure_pending, apply_pending, apply_ensured, behind_pending, behind_resolution,
  resolution_time,
}
use uni_chat_sdk.State.Pending.Effects.{closed-Effect, opened-Effect}
use uni_chat_sdk.State.Pending.Outcome.{IsNews, closed, opened, apply_pending_cases}

module _ (clock : Rfc3339) where
  -- Against a channel's item and its resolution.
  unfoldable pub behind_item : Option CheckItem → CheckItem → Bool
  behind_item none i = false
  behind_item (some current) i = not_after (compare_items clock i current)

  unfoldable pub behind_time : Bytes → CheckItem → Bool
  behind_time r i = if r == [] then false else not_after (compare_item_to_resolution clock i r [])

  -- The item is not news to its channel: a pending item or a resolution is as late.
  unfoldable pub behind : State → CheckItem → Bool
  unfolding behind_item behind_time
  behind s i =
      behind_item (index s.pending i.channel_id) i
      || behind_time (or_empty (index s.pending_resolved_at i.channel_id)) i

  opened_after :
      (p : Option CheckItem) (r : Bytes) (i j : CheckItem)
      → behind_item p j ≡ false
      → behind_time r j ≡ false
      → (behind_item p i || behind_time r i) ≡ true
      → not_after (compare_items clock i j) ≡ true
  unfolding behind_item behind_time
  opened_after none r i j h k b = ground (
    arith,
    compare_items_lem clock i j,
    compare_item_to_resolution_lem clock i r,
    compare_item_to_resolution_lem clock j r,
  )
  opened_after (some c) r i j h k b = ground (
    arith,
    compare_items_lem clock i j,
    compare_items_lem clock i c,
    compare_items_lem clock j c,
    compare_items-Chain clock i j c,
    compare_item_to_resolution_lem clock i r,
    compare_item_to_resolution_lem clock j r,
  )

  module _ (ok : IsRfc3339 clock) where
    -- A resolution by a post that no valid time dates counts as late as every item of its channel
    -- that compared as not later than the post.
    closed_after :
        (now : Time) (p : Option CheckItem) (r : Bytes) (i j : CheckItem)
        → behind_item p j ≡ false
        → behind_time r j ≡ false
        → (behind_item p i || behind_time r i) ≡ true
        → behind_time (resolution_time clock now j) i ≡ true
    unfolding behind_item behind_time resolution_time
    closed_after now none r i j h k b = ground (
      arith,
      compare_item_to_resolution_lem clock i r,
      compare_item_to_resolution_lem clock j r,
      compare_item_to_resolution_lem clock i j.created_at,
      compare_item_to_resolution_lem clock i (clock.format now),
      ==_iff j.created_at [],
      ==_iff (clock.format now) [],
      ok.format-ne-empty now,
      ok.parse_empty,
    )
    closed_after now (some c) r i j h k b = ground (
      arith,
      compare_items_lem clock i c,
      compare_items_lem clock j c,
      compare_item_to_resolution_lem clock i r,
      compare_item_to_resolution_lem clock j r,
      compare_item_to_resolution_lem clock i j.created_at,
      compare_item_to_resolution_lem clock i (clock.format now),
      ==_iff j.created_at [],
      ==_iff (clock.format now) [],
      ok.format-ne-empty now,
      ok.parse_empty,
    )

  pub behind_pending-item :
      (s : State) (j : CheckItem)
      → behind_pending clock (ensure_pending s) j ≡ behind_item (index s.pending j.channel_id) j
  unfolding behind_pending behind_item ensure_pending
  behind_pending-item s j = ground (arith, index-ensure s.pending j.channel_id)

  pub behind_resolution-time :
      (s : State) (j : CheckItem)
      → behind_resolution clock (ensure_pending s) j
        ≡ behind_time (or_empty (index s.pending_resolved_at j.channel_id)) j
  unfolding behind_resolution behind_time ensure_pending
  behind_resolution-time s j = ground (arith, index-ensure s.pending_resolved_at j.channel_id)

  pub behind-ensured : (s : State) (i : CheckItem) → behind (ensure_pending s) i ≡ behind s i
  unfolding behind ensure_pending
  behind-ensured s i =
      rw (index-ensure s.pending i.channel_id, index-ensure s.pending_resolved_at i.channel_id)

  -- On the channel of the post, only its own mark is left.
  pub behind-opened :
      (now : Time) (s : State) (j i : CheckItem)
      → j.channel_id ≡ i.channel_id
      → not_after (compare_items clock i j) ≡ true
      → behind (opened clock now s j) i ≡ true
  unfolding behind behind_item
  behind-opened now s j i same h = ground (
    arith,
    index-put_self s.pending j.channel_id j,
    ap (index (put s.pending j.channel_id j)) same,
  )

  pub behind-closed :
      (now : Time) (s : State) (j i : CheckItem)
      → j.channel_id ≡ i.channel_id
      → behind_time (resolution_time clock now j) i ≡ true
      → behind (closed clock now s j) i ≡ true
  unfolding behind behind_item
  behind-closed now s j i same h =
      let resolved = put s.pending_resolved_at j.channel_id (resolution_time clock now j) in
      ground (
        arith,
        index-put_self s.pending_resolved_at j.channel_id (resolution_time clock now j),
        ap (index resolved) same,
      )

  -- What a post of another channel leaves.
  behind-elsewhere :
      (s t : State) (i : CheckItem)
      → index t.pending i.channel_id ≡ index s.pending i.channel_id
      → index t.pending_resolved_at i.channel_id ≡ index s.pending_resolved_at i.channel_id
      → behind t i ≡ behind s i
  unfolding behind
  behind-elsewhere s t i p q = rw (p, q)

  behind_at :
      (s : State) (i : CheckItem) (channel : Bytes)
      → channel ≡ i.channel_id
      → behind s i ≡ true
      → (behind_item (index s.pending channel) i
          || behind_time (or_empty (index s.pending_resolved_at channel)) i)
        ≡ true
  unfolding behind
  behind_at s i channel same h = rw same h

  pub news-ahead :
      (now : Time) (s : State) (j : CheckItem) → IsNews clock now s j → behind s j ≡ false
  unfolding behind
  news-ahead now s j news =
      ground (arith, news, behind_pending-item s j, behind_resolution-time s j)

  module _ (now : Time) (s : State) (i j : CheckItem) (late : behind s i ≡ true) where
    module _ (news : IsNews clock now s j) where
      not_late_item : behind_item (index s.pending j.channel_id) j ≡ false
      not_late_item = sym (behind_pending-item s j) ∙ news.after_pending

      not_late_time : behind_time (or_empty (index s.pending_resolved_at j.channel_id)) j ≡ false
      not_late_time = sym (behind_resolution-time s j) ∙ news.after_resolution

      pub behind-closed_late : IsRfc3339 clock → behind (closed clock now s j) i ≡ true
      behind-closed_late ok = elim (Bool-cases (j.channel_id == i.channel_id)) [
        | inl e ↦
            let same : j.channel_id ≡ i.channel_id = (==_iff _ _).0 e in
            behind-closed now s j i same (
              closed_after ok now _ _ i j not_late_item not_late_time
                (behind_at s i j.channel_id same late))
        | inr e ↦
            let other =
              (closed-Effect clock now s j).elsewhere i.channel_id
                (ground (arith, e, ==_iff j.channel_id i.channel_id)) in
            behind-elsewhere s (closed clock now s j) i other.pending other.resolved ∙ late
      ]

      pub behind-opened_late : behind (opened clock now s j) i ≡ true
      behind-opened_late = elim (Bool-cases (j.channel_id == i.channel_id)) [
        | inl e ↦
            let same : j.channel_id ≡ i.channel_id = (==_iff _ _).0 e in
            behind-opened now s j i same (
              opened_after _ _ i j not_late_item not_late_time
                (behind_at s i j.channel_id same late))
        | inr e ↦
            let other =
              (opened-Effect clock now s j).elsewhere i.channel_id
                (ground (arith, e, ==_iff j.channel_id i.channel_id)) in
            behind-elsewhere s (opened clock now s j) i other.pending other.resolved ∙ late
      ]

    -- With a clock that reads back what it prints: an item that is no news to its channel is no news
    -- after a call with any item.
    pub behind-apply_pending :
        IsRfc3339 clock
        → (t : State) × (accepted : Bool) × (apply_pending clock now s j ≡ some (t, accepted))
          × (behind t i ≡ true)
    behind-apply_pending ok =
        apply_pending_cases clock now s j (λ t _. behind t i ≡ true)
          (λ _. behind-ensured s i ∙ late) (λ news _. behind-closed_late news ok)
          (λ news _. behind-opened_late news)

  -- An item that is no news is refused.
  pub apply_pending-behind :
      (now : Time) (s : State) (i : CheckItem)
      → behind s i ≡ true
      → apply_pending clock now s i ≡ some (ensure_pending s, false)
  unfolding apply_pending apply_ensured behind
  apply_pending-behind now s i h =
      ground (arith, behind_pending-item s i, behind_resolution-time s i)
