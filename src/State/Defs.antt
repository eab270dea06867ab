-- ===== src/State/Defs.antt =====
-- The record that `state.json` holds (state/state.go), and the order of posts.
use uni_chat_sdk.Prelude.{
  ℕ, ◌+◌, ◌%◌, ◌^◌, Bytes, ◌==◌, compare, Ordering, compare_bytes, trim_space, Bool, true, false,
  not, ◌&&◌, ◌||◌, Option, none, some, List, [], if◌then◌else◌, ◌>>=◌,
}
use uni_chat_sdk.Prelude.GoMap.{GoMap, store}
use uni_chat_sdk.Prelude.Time.{Rfc3339}
use uni_chat_sdk.Protocol.Types.{CheckItem}

pub record State : Type 0 where
  pub cursors : GoMap Bytes
  pub cursor_versions : GoMap (GoMap ℕ)
  pub cursor_successors : GoMap (GoMap Bytes)
  pub activity : GoMap Bytes
  pub watch : List Bytes
  pub pending : GoMap CheckItem
  pub revision : ℕ
  pub pending_revision : GoMap ℕ
  pub pending_resolved_at : GoMap Bytes
  pub last_check : Bytes

-- A uint64 wraps.
abbrev pub next_u64 : ℕ → ℕ
next_u64 n = (n + 1) % 2 ^ 64

unfoldable pub is_blank : Bytes → Bool
is_blank s = trim_space s == []

unfoldable pub valid_pending : CheckItem → Bool
valid_pending item =
    not (is_blank item.channel_id) && not (is_blank item.channel_ref) && not (is_blank item.post_id)

unfoldable pub touch_pending : State → Bytes → Option State
touch_pending s channel =
    let bumped = record s { revision = next_u64 s.revision } in
    store bumped.pending_revision channel bumped.revision >>= λ stamped.
    some (record bumped { pending_revision = stamped })

-- The result of a Go comparison is negative, zero or positive.
abbrev pub not_after : Ordering → Bool
not_after Ordering.gt = false
not_after _ = true

abbrev pub is_before : Ordering → Bool
is_before Ordering.lt = true
is_before _ = false

abbrev pub is_zero : Ordering → Bool
is_zero Ordering.eq = true
is_zero _ = false

abbrev bool_eq : Bool → Bool → Bool
bool_eq true b = b
bool_eq false b = not b

module _ (clock : Rfc3339) where
  abbrev compare_parsed : Option ℕ → Option ℕ → Ordering × Bool × Bool
  compare_parsed (some l) (some r) = (compare l r, true, true)
  compare_parsed (some l) none = (Ordering.eq, true, false)
  compare_parsed none (some r) = (Ordering.eq, false, true)
  compare_parsed none none = (Ordering.eq, false, false)

  -- The comparison, and which of the two texts parsed.
  unfoldable pub compare_timestamps : Bytes → Bytes → Ordering × Bool × Bool
  compare_timestamps left right = compare_parsed (clock.parse left) (clock.parse right)

  unfoldable pub compare_items : CheckItem → CheckItem → Ordering
  unfolding compare_timestamps
  compare_items left right =
      let (cmp, left_valid, right_valid) = compare_timestamps left.created_at right.created_at in
      let by_post = compare_bytes left.post_id right.post_id in
      if left_valid || right_valid
      then if not (bool_eq left_valid right_valid)
        then if left_valid then Ordering.gt else Ordering.lt
        else if is_zero cmp
        then by_post
        else cmp
      else by_post

  unfoldable pub compare_item_to_resolution : CheckItem → Bytes → Bytes → Ordering
  unfolding compare_timestamps
  compare_item_to_resolution item resolved_at resolved_id =
      let (cmp, item_valid, resolution_valid) = compare_timestamps item.created_at resolved_at in
      let by_post = compare_bytes item.post_id resolved_id in
      if not item_valid || not resolution_valid
      then if not (resolved_id == []) && not (item.post_id == []) then by_post else Ordering.eq
      else if not (is_zero cmp)
      then cmp
      else if (resolved_id == []) || (item.post_id == [])
      then Ordering.eq
      else by_post
