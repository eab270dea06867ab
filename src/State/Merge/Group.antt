-- ===== src/State/Merge/Group.antt =====
-- The grouping by channel in `MergePending` of state/state.go loses and repeats no event.
use mathlib.Core.List.{Perm, append_assoc, append-nil}
use mathlib.Core.List.Perm
use mathlib.Core.Path.{subst}
use uni_chat_sdk.Prelude.{
  Bytes, ◌≡◌, sym, ◌∙◌, ◌==◌, ==_iff, false, List, [], ◌∷◌, ◌++◌, none, some, arith, Bool-cases,
  Option-cases, inl, inr,
}
use uni_chat_sdk.Prelude.GoMap.{empty, index, put, index-put, index-put_self, index-put_ne}
use uni_chat_sdk.Protocol.Types.{CheckItem}
use uni_chat_sdk.State.Merge.{Groups, add_event, group_events}
use uni_chat_sdk.State.Merge.Gather.{
  gather, Present, IsGrouped, gather-put-Absent, gather-append, gather-put_present, Absent-append,
  Present-append, Present-last, Distinct-append, perm-append_last,
}

module _ (g : Groups) (inv : IsGrouped g) (item : CheckItem) where
  with_new : Groups
  with_new = record {
    order = g.order ++ item.channel_id ∷ [];
    by_channel = put g.by_channel item.channel_id (item ∷ []);
  }

  with_old : List CheckItem → Groups
  with_old batch = record {
    order = g.order;
    by_channel = put g.by_channel item.channel_id (batch ++ item ∷ []);
  }

  -- What a write to the map can have changed.
  index_other :
      (c : Bytes) (batch : List CheckItem)
      → (item.channel_id == c) ≡ false
      → index (put g.by_channel item.channel_id batch) c ≡ index g.by_channel c
  index_other c batch h =
      index-put_ne g.by_channel item.channel_id c batch (ground (arith, ==_iff item.channel_id c))

  unwritten :
      (c : Bytes) (batch : List CheckItem)
      → index (put g.by_channel item.channel_id batch) c ≡ none
      → (item.channel_id == c) ≡ false
  unwritten c batch h =
      ground (arith, index-put g.by_channel item.channel_id c batch, ==_iff item.channel_id c)

  with_new-IsGrouped : index g.by_channel item.channel_id ≡ none → IsGrouped with_new
  unfolding with_new
  with_new-IsGrouped h = record {
    distinct = Distinct-append item.channel_id g.order inv.distinct (inv.absent item.channel_id h);
    absent = λ c e.
        let other = unwritten c (item ∷ []) e in
        Absent-append c item.channel_id g.order
          (inv.absent c (sym (index_other c (item ∷ []) other) ∙ e))
          (ground (arith, other, ==_iff item.channel_id c));
    present = λ c batch e. elim (Bool-cases (item.channel_id == c)) [
      | inl same ↦
          subst (λ d. Present d (g.order ++ item.channel_id ∷ [])) ((==_iff _ _).0 same)
            (Present-last item.channel_id g.order)
      | inr other ↦
          Present-append c item.channel_id g.order
            (inv.present c batch (sym (index_other c (item ∷ []) other) ∙ e))
    ];
  }

  with_old-IsGrouped :
      (batch : List CheckItem)
      → index g.by_channel item.channel_id ≡ some batch
      → IsGrouped (with_old batch)
  unfolding with_old
  with_old-IsGrouped batch h = record {
    distinct = inv.distinct;
    absent = λ c e.
        let other = unwritten c (batch ++ item ∷ []) e in
        inv.absent c (sym (index_other c (batch ++ item ∷ []) other) ∙ e);
    present = λ c b e. elim (Bool-cases (item.channel_id == c)) [
      | inl same ↦
          subst (λ d. Present d g.order) ((==_iff _ _).0 same) (inv.present item.channel_id batch h)
      | inr other ↦ inv.present c b (sym (index_other c (batch ++ item ∷ []) other) ∙ e)
    ];
  }

  added_new : index g.by_channel item.channel_id ≡ none → add_event g item ≡ with_new
  unfolding add_event with_new
  added_new h = ground arith

  added_old :
      (batch : List CheckItem)
      → index g.by_channel item.channel_id ≡ some batch
      → add_event g item ≡ with_old batch
  unfolding add_event with_old
  added_old batch h = ground arith

  gather-with_new :
      index g.by_channel item.channel_id ≡ none
      → gather with_new.by_channel with_new.order ≡ gather g.by_channel g.order ++ item ∷ []
  unfolding with_new gather
  gather-with_new h = rw (
    gather-append (put g.by_channel item.channel_id (item ∷ [])) g.order (item.channel_id ∷ []),
    gather-put-Absent g.by_channel item.channel_id (item ∷ []) g.order
        (inv.absent item.channel_id h),
    index-put_self g.by_channel item.channel_id (item ∷ []),
  )

  Adds : Groups → Type 0
  Adds k =
      IsGrouped k × Perm (gather k.by_channel k.order) (gather g.by_channel g.order ++ item ∷ [])

  add_event-Adds : Adds (add_event g item)
  unfolding Adds
  add_event-Adds = elim (Option-cases (index g.by_channel item.channel_id)) [
    | inl h ↦ subst Adds (sym (added_new h)) (
      with_new-IsGrouped h,
      subst (λ xs. Perm (gather with_new.by_channel with_new.order) xs) (gather-with_new h)
          (Perm.refl _),
    )
    | inr (batch, h) ↦ subst Adds (sym (added_old batch h)) (
      with_old-IsGrouped batch h,
      unfold with_old in
          Perm.trans
            (gather-put_present g.by_channel item.channel_id batch item g.order h inv.distinct
              (inv.present item.channel_id batch h))
            (perm-append_last item (gather g.by_channel g.order)),
    )
  ]

group_events-perm :
    (g : Groups) (items : List CheckItem)
    → IsGrouped g
    → Perm
        (gather (group_events g items).by_channel (group_events g items).order)
        (gather g.by_channel g.order ++ items)
unfolding group_events Adds
group_events-perm g [] inv =
    subst (λ xs. Perm (gather g.by_channel g.order) xs)
      (sym (append-nil (gather g.by_channel g.order))) (Perm.refl _)
group_events-perm g (item ∷ items) inv =
    let (inv', p) = add_event-Adds g inv item in
    Perm.trans (group_events-perm (add_event g item) items inv') (
      subst (λ xs. Perm (gather (add_event g item).by_channel (add_event g item).order ++ items) xs)
        (append_assoc (gather g.by_channel g.order) (item ∷ []) items) (Perm.append_right items p))

abbrev pub no_groups : Groups
no_groups = record { order = []; by_channel = empty }

-- Each event stands in one group, as often as it came in.
pub gather-perm :
    (items : List CheckItem)
    → Perm
        (gather (group_events no_groups items).by_channel (group_events no_groups items).order)
        items
unfolding gather index
gather-perm items =
    group_events-perm no_groups items
      (record { distinct = tt; absent = λ c h. tt; present = λ c batch h. cc })
