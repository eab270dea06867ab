-- ===== src/State/Merge.antt =====
-- `MergePending` of state/state.go: a check's events are grouped by channel, each group is sorted,
-- and the groups are applied in turn.
pub mod Sort
mod Gather
pub mod Group
pub mod Contract
pub mod Twice
pub mod Entries
use uni_chat_sdk.Prelude.{
  ℕ, ◌+◌, Bytes, Bool, ◌||◌, Option, none, some, List, [], ◌∷◌, ◌++◌, if◌then◌else◌, ◌>>=◌,
}
use uni_chat_sdk.Prelude.GoMap.{GoMap, empty, index, put}
use uni_chat_sdk.Prelude.Time.{Time, Rfc3339}
use uni_chat_sdk.Protocol.Types.{CheckItem}
use uni_chat_sdk.State.Defs.{State, compare_items, is_before}
use uni_chat_sdk.State.Pending.{apply_pending}

-- The channels in the order of their first event, and each one's events in their order.
pub record Groups : Type 0 where
  pub order : List Bytes
  pub by_channel : GoMap (List CheckItem)

abbrev pub or_none : Option (List CheckItem) → List CheckItem
or_none none = []
or_none (some batch) = batch

-- `byChannel` comes from a literal, so it is not nil and the write does not panic.
unfoldable pub add_event : Groups → CheckItem → Groups
add_event g item = record {
  order = elim (index g.by_channel item.channel_id) [
    | none ↦ g.order ++ item.channel_id ∷ []
    | some batch ↦ g.order
  ];
  by_channel =
      put g.by_channel item.channel_id (or_none (index g.by_channel item.channel_id) ++ item ∷ []);
}

unfoldable pub group_events : Groups → List CheckItem → Groups
group_events g [] = g
group_events g (item ∷ items) = group_events (add_event g item) items

-- The loop's variables. `calls` counts the calls of `ApplyPending`; the n-th is at time `now n`.
pub record Progress : Type 0 where
  pub calls : ℕ
  pub current : State
  pub accepted : List CheckItem

module _ (clock : Rfc3339) where
  unfoldable pub insert_event : CheckItem → List CheckItem → List CheckItem
  insert_event item [] = item ∷ []
  insert_event item (head ∷ batch) =
      if is_before (compare_items clock head item)
      then head ∷ insert_event item batch
      else item ∷ head ∷ batch

  -- sort.SliceStable with `compareItems(batch[i], batch[j]) < 0`. A stable sort by a linear order
  -- has one result, whatever its algorithm.
  unfoldable pub sort_events : List CheckItem → List CheckItem
  unfolding insert_event
  sort_events [] = []
  sort_events (item ∷ batch) = insert_event item (sort_events batch)

  module _ (now : ℕ → Time) where
    unfoldable pub merge_event : Progress → CheckItem → Option Progress
    merge_event p item =
        if item.own || item.addressed
        then (apply_pending clock (now p.calls) p.current item >>= λ (t, done). some (record {
          calls = p.calls + 1;
          current = t;
          accepted = if done then p.accepted ++ item ∷ [] else p.accepted;
        }))
        else some (record p { accepted = p.accepted ++ item ∷ [] })

    unfoldable pub merge_batch : Progress → List CheckItem → Option Progress
    merge_batch p [] = some p
    merge_batch p (item ∷ batch) = merge_event p item >>= λ q. merge_batch q batch

    unfoldable pub merge_channels : Progress → GoMap (List CheckItem) → List Bytes → Option Progress
    merge_channels p by_channel [] = some p
    merge_channels p by_channel (channel ∷ order) =
        merge_batch p (sort_events (or_none (index by_channel channel))) >>= λ q.
        merge_channels q by_channel order

    -- `none` is a panic.
    unfoldable pub merge_pending : State → List CheckItem → Option (State × List CheckItem)
    merge_pending current items =
        let groups = group_events (record { order = []; by_channel = empty }) items in
        merge_channels (record { calls = 0; current = current; accepted = [] }) groups.by_channel
          groups.order
        >>= λ p. some (p.current, p.accepted)
