-- ===== src/State/Pending.antt =====
-- `ApplyPending` of state/state.go: one pending item per channel, closed by an own post.
pub mod Outcome
pub mod Effects
pub mod Forward
pub mod Frontier
pub mod Settled
pub mod Once
pub mod Latest
pub mod Converge
pub mod AnyOrder
pub mod Unparsed
use uni_chat_sdk.Prelude.{
  Bytes, ◌==◌, Bool, true, false, ◌&&◌, Option, none, some, [], if◌then◌else◌, ◌>>=◌,
}
use uni_chat_sdk.Prelude.GoMap.{index, store, remove, ensure}
use uni_chat_sdk.Prelude.Time.{Time, Rfc3339}
use uni_chat_sdk.Protocol.Types.{CheckItem}
use uni_chat_sdk.State.Defs.{
  State, valid_pending, touch_pending, not_after, compare_items, compare_item_to_resolution,
}

-- m[k] of a map of strings: the empty string where the key is missing
abbrev pub or_empty : Option Bytes → Bytes
or_empty none = []
or_empty (some s) = s

unfoldable pub ensure_pending : State → State
ensure_pending s = record s {
  pending = ensure s.pending;
  pending_revision = ensure s.pending_revision;
  pending_resolved_at = ensure s.pending_resolved_at;
}

module _ (clock : Rfc3339) where
  -- current, ok := s.Pending[item.ChannelID]; ok && compareItems(item, current) <= 0
  unfoldable pub behind_pending : State → CheckItem → Bool
  behind_pending s item = elim (index s.pending item.channel_id) [
    | none ↦ false
    | some current ↦ not_after (compare_items clock item current)
  ]

  -- resolvedAt != "" && compareItemToResolution(item, resolvedAt, "") <= 0
  unfoldable pub behind_resolution : State → CheckItem → Bool
  behind_resolution s item =
      let resolved_at = or_empty (index s.pending_resolved_at item.channel_id) in
      if resolved_at == []
      then false
      else not_after (compare_item_to_resolution clock item resolved_at [])

  unfoldable pub resolution_time : Time → CheckItem → Bytes
  resolution_time now item = if item.created_at == [] then clock.format now else item.created_at

  -- An own post that is news: the channel's item is closed.
  unfoldable pub close_pending : Time → State → CheckItem → Option (State × Bool)
  unfolding resolution_time touch_pending
  close_pending now s item =
      let closed = record s { pending = remove s.pending item.channel_id } in
      store closed.pending_resolved_at item.channel_id (resolution_time now item) >>= λ resolved.
      touch_pending (record closed { pending_resolved_at = resolved }) item.channel_id
      >>= λ touched. some (touched, true)

  -- An addressed post that is news: it becomes the channel's item.
  unfoldable pub open_pending : State → CheckItem → Option (State × Bool)
  unfolding touch_pending
  open_pending s item = store s.pending item.channel_id item >>= λ opened.
      touch_pending
        (record s {
          pending = opened;
          pending_resolved_at = remove s.pending_resolved_at item.channel_id;
        })
        item.channel_id
      >>= λ touched. some (touched, true)

  unfoldable pub apply_ensured : Time → State → CheckItem → Option (State × Bool)
  apply_ensured now s item =
      if item.channel_id == []
      then some (s, false)
      else if item.own
      then if behind_pending s item
        then some (s, false)
        else if behind_resolution s item
        then some (s, false)
        else close_pending now s item
      else if item.addressed && valid_pending item
      then if behind_resolution s item
        then some (s, false)
        else if behind_pending s item
        then some (s, false)
        else open_pending s item
      else some (s, false)

  -- `none` is a panic. `now` is the time that `time.Now()` would give.
  unfoldable pub apply_pending : Time → State → CheckItem → Option (State × Bool)
  apply_pending now s item = apply_ensured now (ensure_pending s) item
