-- ===== src/State/Pending/Forward.antt =====
-- The pending projection only moves forward: in `ApplyPending` later posts win over earlier ones.
use uni_chat_sdk.Prelude.{
  Bytes, ◌≡◌, refl, ◌∙◌, ap, ◌≤◌, ◌==◌, ==_iff, Bool, true, false, ◌⊎◌, inl, inr, Ordering, none,
  some, [], arith, if◌then◌else◌,
}
use uni_chat_sdk.Prelude.GoMap.{
  index, index-ensure, index-put, index-remove, index-put_self, index-remove_self, ensure-made,
  ensure-IsMade, put-IsMade, remove-IsMade, ensure,
}
use uni_chat_sdk.Prelude.Time.{Time, Rfc3339, IsRfc3339}
use uni_chat_sdk.Protocol.Types.{CheckItem}
use uni_chat_sdk.State.Defs.{State, compare_items, compare_item_to_resolution, not_after}
use uni_chat_sdk.State.Order.{compare_items_refl, compare_item_to_resolution_lem}
use uni_chat_sdk.State.Pending.{
  ensure_pending, apply_pending, apply_ensured, behind_pending, behind_resolution, resolution_time,
}
use uni_chat_sdk.State.Pending.Outcome.{closed, opened, apply_pending_cases}

module _ (clock : Rfc3339) (now : Time) (s : State) (item : CheckItem) where
  behind_pending_of :
      (old : CheckItem)
      → index s.pending item.channel_id ≡ some old
      → behind_pending clock (ensure_pending s) item ≡ not_after (compare_items clock item old)
  unfolding behind_pending ensure_pending
  behind_pending_of old h = ground (arith, index-ensure s.pending item.channel_id)

  gt_of_not_after : (o : Ordering) → not_after o ≡ false → o ≡ Ordering.gt
  gt_of_not_after o h = ground arith

  -- A channel's item is replaced or closed only by a post of that channel that compares as later:
  -- closed by an own one, replaced by any other.
  pub apply_pending-later :
      (k : Bytes) (old : CheckItem)
      → index s.pending k ≡ some old
      → (t : State) × (accepted : Bool) × (apply_pending clock now s item ≡ some (t, accepted))
        × ((index t.pending k ≡ some old)
            ⊎ ((k ≡ item.channel_id)
                × (compare_items clock item old ≡ Ordering.gt)
                × (index t.pending k ≡ (if item.own then none else some item))))
  unfolding ensure_pending
  apply_pending-later k old h =
      apply_pending_cases clock now s item
        (λ t _.
          (index t.pending k ≡ some old)
          ⊎ ((k ≡ item.channel_id)
              × (compare_items clock item old ≡ Ordering.gt)
              × (index t.pending k ≡ (if item.own then none else some item))))
        (λ _. inl (index-ensure s.pending k ∙ h))
        (λ news own. ground (
          arith,
          index-remove (ensure s.pending) item.channel_id k,
          index-ensure s.pending k,
          ==_iff item.channel_id k,
          behind_pending_of old,
          gt_of_not_after (compare_items clock item old),
          news,
          own,
          h,
        ))
        (λ news r. ground (
          arith,
          index-put s.pending item.channel_id k item,
          index-ensure s.pending k,
          ==_iff item.channel_id k,
          behind_pending_of old,
          gt_of_not_after (compare_items clock item old),
          news,
          r,
          h,
        ))

-- What an accepted item leaves has no nil map, so the next call allocates none.
ensure_pending_made :
    (s : State)
    → ensure s.pending ≡ s.pending
    → ensure s.pending_revision ≡ s.pending_revision
    → ensure s.pending_resolved_at ≡ s.pending_resolved_at
    → ensure_pending s ≡ s
unfolding ensure_pending
ensure_pending_made s p q r = ground arith

module _ (clock : Rfc3339) (now : Time) (s : State) (item : CheckItem) where
  ensure_pending-ensured : ensure_pending (ensure_pending s) ≡ ensure_pending s
  ensure_pending-ensured =
      ensure_pending_made (ensure_pending s)
        (unfold ensure_pending in ensure-made _ (ensure-IsMade s.pending))
        (unfold ensure_pending in ensure-made _ (ensure-IsMade s.pending_revision))
        (unfold ensure_pending in ensure-made _ (ensure-IsMade s.pending_resolved_at))

  ensure_pending-closed : ensure_pending (closed clock now s item) ≡ closed clock now s item
  unfolding ensure_pending
  ensure_pending-closed =
      ensure_pending_made (closed clock now s item)
        (ensure-made _ (remove-IsMade _ item.channel_id (ensure-IsMade s.pending)))
        (ensure-made _ (put-IsMade s.pending_revision _ _))
        (ensure-made _ (put-IsMade s.pending_resolved_at _ _))

  ensure_pending-opened : ensure_pending (opened clock now s item) ≡ opened clock now s item
  unfolding ensure_pending
  ensure_pending-opened =
      ensure_pending_made (opened clock now s item) (ensure-made _ (put-IsMade s.pending _ _))
        (ensure-made _ (put-IsMade s.pending_revision _ _))
        (ensure-made _ (remove-IsMade _ item.channel_id (ensure-IsMade s.pending_resolved_at)))

  apply_pending-ensured :
      (later : Time)
      → apply_pending clock later (ensure_pending s) item ≡ apply_pending clock later s item
  unfolding apply_pending
  apply_pending-ensured later = ap (λ t. apply_ensured clock later t item) ensure_pending-ensured

  refused_by_pending :
      behind_pending clock s item ≡ true
      → ensure_pending s ≡ s
      → apply_pending clock now s item ≡ some (s, false)
  unfolding apply_pending apply_ensured
  refused_by_pending h e = rw e (ground arith)

  refused_by_resolution :
      behind_resolution clock s item ≡ true
      → ensure_pending s ≡ s
      → apply_pending clock now s item ≡ some (s, false)
  unfolding apply_pending apply_ensured
  refused_by_resolution h e = rw e (ground arith)

  behind_itself : behind_pending clock (opened clock now s item) item ≡ true
  unfolding behind_pending
  behind_itself =
      ground (arith, index-put_self s.pending item.channel_id item, compare_items_refl clock item)

-- After an own post has closed its channel, a post that is not later than it is refused.
behind_closed :
    (clock : Rfc3339) (now : Time) (s : State) (own_post item : CheckItem)
    → item.channel_id ≡ own_post.channel_id
    → (resolution_time clock now own_post == []) ≡ false
    → not_after (compare_item_to_resolution clock item (resolution_time clock now own_post) [])
      ≡ true
    → behind_resolution clock (closed clock now s own_post) item ≡ true
unfolding behind_resolution
behind_closed clock now s own_post item same h late = ground (
  arith,
  index-put_self s.pending_resolved_at own_post.channel_id (resolution_time clock now own_post),
)

module _ (clock : Rfc3339) (ok : IsRfc3339 clock) where
  pub resolution_time-ne-empty :
      (now : Time) (item : CheckItem) → (resolution_time clock now item == []) ≡ false
  unfolding resolution_time
  resolution_time-ne-empty now item =
      ground (arith, ok.format-ne-empty now, ==_iff (clock.format now) [])

  -- An own post does not come after the resolution time that it has left.
  pub own_resolution :
      (now : Time) (item : CheckItem)
      → not_after (compare_item_to_resolution clock item (resolution_time clock now item) []) ≡ true
  unfolding resolution_time
  own_resolution now item = ground (
    arith,
    compare_item_to_resolution_lem clock item item.created_at,
    compare_item_to_resolution_lem clock item (clock.format now),
    ==_iff item.created_at [],
    ok.parse_empty,
  )

  resolution_dated :
      (now : Time) (item : CheckItem) (sent : Time)
      → clock.parse item.created_at ≡ some sent
      → resolution_time clock now item ≡ item.created_at
  unfolding resolution_time
  resolution_dated now item sent h = ground (arith, ==_iff item.created_at [], ok.parse_empty)

  -- With a clock that reads back what it prints: every call returns, and a second call with the same
  -- item, at any time, is refused and changes nothing.
  pub apply_pending-twice :
      (now later : Time) (s : State) (item : CheckItem)
      → (t : State) × (accepted : Bool) × (apply_pending clock now s item ≡ some (t, accepted))
        × (apply_pending clock later t item ≡ some (t, false))
  apply_pending-twice now later s item =
      apply_pending_cases clock now s item
        (λ t _. apply_pending clock later t item ≡ some (t, false))
        (λ refused. apply_pending-ensured clock now s item later ∙ refused later)
        (λ _ _.
          refused_by_resolution clock later (closed clock now s item) item
            (behind_closed clock now s item item refl (resolution_time-ne-empty now item)
              (own_resolution now item))
            (ensure_pending-closed clock now s item))
        (λ _ _.
          refused_by_pending clock later (opened clock now s item) item
            (behind_itself clock now s item) (ensure_pending-opened clock now s item))

  -- With a clock that reads back what it prints: an own post with a valid time is refused, or it
  -- closes its channel and from then on an item of
  -- the channel with a valid time that is not after the own post's is refused.
  pub apply_pending-closes :
      (now later : Time) (s : State) (own_post item : CheckItem) (sent seen : Time)
      → own_post.own ≡ true
      → item.channel_id ≡ own_post.channel_id
      → clock.parse own_post.created_at ≡ some sent
      → clock.parse item.created_at ≡ some seen
      → seen ≤ sent
      → (t : State) × (accepted : Bool) × (apply_pending clock now s own_post ≡ some (t, accepted))
        × ((accepted ≡ false)
            ⊎ ((index t.pending item.channel_id ≡ none)
                × (apply_pending clock later t item ≡ some (t, false))))
  apply_pending-closes now later s own_post item sent seen own same p q le =
      apply_pending_cases clock now s own_post
        (λ t accepted.
          (accepted ≡ false)
          ⊎ ((index t.pending item.channel_id ≡ none)
              × (apply_pending clock later t item ≡ some (t, false))))
        (λ _. inl refl)
        (λ _ _. inr (
          rw same (index-remove_self (ensure s.pending) own_post.channel_id),
          refused_by_resolution clock later (closed clock now s own_post) item
              (behind_closed clock now s own_post item same (resolution_time-ne-empty now own_post)
                late)
              (ensure_pending-closed clock now s own_post),
        ))
        (λ _ r. absurd (ground (arith, r)))
    where
      dated : resolution_time clock now own_post ≡ own_post.created_at
      dated = resolution_dated now own_post sent p

      late :
          not_after (compare_item_to_resolution clock item (resolution_time clock now own_post) [])
          ≡ true
      late =
          rw dated (ground (arith, compare_item_to_resolution_lem clock item own_post.created_at))
