-- ===== src/State/Merge/Sort.antt =====
-- The stable sort of a channel's events in `MergePending` of state/state.go.
use mathlib.Core.List.{Perm}
use mathlib.Core.List.Perm
use uni_chat_sdk.Prelude.{◌≡◌, true, List, [], ◌∷◌, arith, Bool-cases, inl, inr}
use uni_chat_sdk.Prelude.Time.{Rfc3339}
use uni_chat_sdk.Protocol.Types.{CheckItem}
use uni_chat_sdk.State.Defs.{compare_items, is_before, not_after}
use uni_chat_sdk.State.Order.{compare_items-swap, compare_items-Chain}
use uni_chat_sdk.State.Merge.{insert_event, sort_events}

module _ (clock : Rfc3339) where
  -- Every event of the list is at or after `item`.
  abbrev pub From : CheckItem → List CheckItem → Type 0
  From item [] = Unit {0}
  From item (x ∷ xs) = (not_after (compare_items clock item x) ≡ true) × From item xs

  -- Each event is at or before all that follow it.
  abbrev pub Ascending : List CheckItem → Type 0
  Ascending [] = Unit {0}
  Ascending (x ∷ xs) = From x xs × Ascending xs

  From-weaken :
      (x y : CheckItem) (xs : List CheckItem)
      → not_after (compare_items clock x y) ≡ true
      → From y xs
      → From x xs
  From-weaken x y [] h f = tt
  From-weaken x y (z ∷ zs) h f =
      (ground (arith, compare_items-Chain clock x y z, f.0), From-weaken x y zs h f.1)

  From-insert_event :
      (x item : CheckItem) (xs : List CheckItem)
      → not_after (compare_items clock x item) ≡ true
      → From x xs
      → From x (insert_event clock item xs)
  unfolding insert_event
  From-insert_event x item [] h f = (h, tt)
  From-insert_event x item (y ∷ ys) h f = ground (arith, From-insert_event x item ys h f.1)

  insert_event-Ascending :
      (item : CheckItem) (xs : List CheckItem)
      → Ascending xs
      → Ascending (insert_event clock item xs)
  unfolding insert_event
  insert_event-Ascending item [] a = (tt, tt)
  insert_event-Ascending item (y ∷ ys) a = ground (
    arith,
    insert_event-Ascending item ys a.1,
    From-insert_event y item ys,
    From-weaken item y ys,
    compare_items-swap clock y item,
  )

  insert_event-perm :
      (item : CheckItem) (xs : List CheckItem) → Perm (insert_event clock item xs) (item ∷ xs)
  unfolding insert_event
  insert_event-perm item [] = Perm.refl _
  insert_event-perm item (y ∷ ys) = elim (Bool-cases (is_before (compare_items clock y item))) [
    | inl e ↦ rw e (Perm.trans (Perm.cons y (insert_event-perm item ys)) (Perm.swap item y ys))
    | inr e ↦ rw e (Perm.refl _)
  ]

  pub sort_events-Ascending : (xs : List CheckItem) → Ascending (sort_events clock xs)
  unfolding sort_events
  sort_events-Ascending [] = tt
  sort_events-Ascending (x ∷ xs) =
      insert_event-Ascending x (sort_events clock xs) (sort_events-Ascending xs)

  pub sort_events-perm : (xs : List CheckItem) → Perm (sort_events clock xs) xs
  unfolding sort_events
  sort_events-perm [] = Perm.refl []
  sort_events-perm (x ∷ xs) =
      Perm.trans (insert_event-perm x (sort_events clock xs)) (Perm.cons x (sort_events-perm xs))
