-- ===== src/State/Merge/Contract.antt =====
-- What `MergePending` of state/state.go promises: it is one pass of `ApplyPending` over the events,
-- channel by channel and each channel in its order.
use mathlib.Core.Bool.{Bool-discrete}
use mathlib.Core.List.{Perm, Sublistᴰ, filter, append_assoc, append-nil, filter-append}
use mathlib.Core.List.Perm
use mathlib.Core.List.Sublistᴰ
use uni_chat_sdk.Prelude.{
  ℕ, ◌+◌, Bytes, ◌≡◌, refl, sym, Bool, true, false, ◌||◌, some, List, [], ◌∷◌, ◌++◌, arith,
  if◌then◌else◌, Bool-cases, inl, inr,
}
use uni_chat_sdk.Prelude.GoMap.{GoMap, index}
use uni_chat_sdk.Prelude.Time.{Time, Rfc3339}
use uni_chat_sdk.Protocol.Types.{CheckItem}
use uni_chat_sdk.State.Defs.{State}
use uni_chat_sdk.State.Pending.{apply_pending}
use uni_chat_sdk.State.Pending.Effects.{IsProjection, apply_pending-IsProjection}
use uni_chat_sdk.State.Merge.{
  or_none, group_events, sort_events, Progress, merge_event, merge_batch, merge_channels,
  merge_pending,
}
use uni_chat_sdk.State.Merge.Sort.{sort_events-perm}
use uni_chat_sdk.State.Merge.Gather.{gather}
use uni_chat_sdk.State.Merge.Group.{no_groups, gather-perm}

module _ (clock : Rfc3339) where
  unfoldable pub arrange : GoMap (List CheckItem) → List Bytes → List CheckItem
  arrange by_channel [] = []
  arrange by_channel (c ∷ order) =
      sort_events clock (or_none (index by_channel c)) ++ arrange by_channel order

  -- The events in the order in which they are applied.
  unfoldable pub arranged : List CheckItem → List CheckItem
  arranged items = let g = group_events no_groups items in arrange g.by_channel g.order

  arrange-perm :
      (m : GoMap (List CheckItem)) (order : List Bytes) → Perm (arrange m order) (gather m order)
  unfolding arrange gather
  arrange-perm m [] = Perm.refl []
  arrange-perm m (c ∷ order) =
      Perm.append (sort_events-perm clock (or_none (index m c))) (arrange-perm m order)

  pub arranged-perm : (items : List CheckItem) → Perm (arranged items) items
  unfolding arranged
  arranged-perm items =
      let g = group_events no_groups items in
      Perm.trans (arrange-perm g.by_channel g.order) (gather-perm items)

-- An event that `MergePending` passes on whatever the projection says.
abbrev pub watch? : (i : CheckItem) → Dec ((i.own || i.addressed) ≡ false)
watch? i = Bool-discrete (i.own || i.addressed) false

-- From progress `p`, what is accepted of `xs` is a part of `xs` in its order with every watch event,
-- and the projection stays sound.
record Passes (p : Progress) (xs : List CheckItem) (q : Progress) : Type 0 where
  taken : List CheckItem
  accepted : q.accepted ≡ p.accepted ++ taken
  part : Sublistᴰ taken xs
  watched : filter watch? taken ≡ filter watch? xs
  sound : IsProjection q.current

Passes-none : (p : Progress) → IsProjection p.current → Passes p [] p
Passes-none p inv = record {
  taken = [];
  accepted = sym (append-nil p.accepted);
  part = Sublistᴰ.slnil;
  watched = refl;
  sound = inv;
}

Passes-append :
    (p q r : Progress) (xs ys : List CheckItem)
    → Passes p xs q
    → Passes q ys r
    → Passes p (xs ++ ys) r
Passes-append p q r xs ys a b = record {
  taken = a.taken ++ b.taken;
  accepted = rw (b.accepted, a.accepted) (append_assoc p.accepted a.taken b.taken);
  part = Sublistᴰ.append a.part b.part;
  watched =
      rw (filter-append watch? a.taken b.taken, filter-append watch? xs ys, a.watched, b.watched);
  sound = b.sound;
}

module _ (clock : Rfc3339) (now : ℕ → Time) where
  unfoldable pub after_watch : Progress → CheckItem → Progress
  after_watch p x = record p { accepted = p.accepted ++ x ∷ [] }

  unfoldable pub after_request : Progress → CheckItem → State → Bool → Progress
  after_request p x t done = record {
    calls = p.calls + 1;
    current = t;
    accepted = if done then p.accepted ++ x ∷ [] else p.accepted;
  }

  pub merge_watch :
      (p : Progress) (x : CheckItem)
      → (x.own || x.addressed) ≡ false
      → merge_event clock now p x ≡ some (after_watch p x)
  unfolding merge_event after_watch
  merge_watch p x h = ground arith

  pub merge_request :
      (p : Progress) (x : CheckItem) (t : State) (done : Bool)
      → (x.own || x.addressed) ≡ true
      → apply_pending clock (now p.calls) p.current x ≡ some (t, done)
      → merge_event clock now p x ≡ some (after_request p x t done)
  unfolding merge_event after_request
  merge_request p x t done h e = ground arith

  after_watch-Passes :
      (p : Progress) (x : CheckItem) → IsProjection p.current → Passes p (x ∷ []) (after_watch p x)
  unfolding after_watch
  after_watch-Passes p x inv = record {
    taken = x ∷ [];
    accepted = refl;
    part = Sublistᴰ.cons-cons refl Sublistᴰ.slnil;
    watched = refl;
    sound = inv;
  }

  after_request-Passes :
      (p : Progress) (x : CheckItem) (t : State) (done : Bool)
      → (x.own || x.addressed) ≡ true
      → IsProjection t
      → Passes p (x ∷ []) (after_request p x t done)
  unfolding after_request
  after_request-Passes p x t true h inv = record {
    taken = x ∷ [];
    accepted = refl;
    part = Sublistᴰ.cons-cons refl Sublistᴰ.slnil;
    watched = refl;
    sound = inv;
  }
  after_request-Passes p x t false h inv = record {
    taken = [];
    accepted = sym (append-nil p.accepted);
    part = Sublistᴰ.cons Sublistᴰ.slnil;
    watched = ground arith;
    sound = inv;
  }

  merge_event-Passes :
      (p : Progress) (x : CheckItem)
      → IsProjection p.current
      → (q : Progress) × (merge_event clock now p x ≡ some q) × Passes p (x ∷ []) q
  merge_event-Passes p x inv = elim (Bool-cases (x.own || x.addressed)) [
    | inl request ↦
        let (t, done, e, sound) = apply_pending-IsProjection clock (now p.calls) p.current x inv in
        (
          after_request p x t done,
          merge_request p x t done request e,
          after_request-Passes p x t done request sound,
        )
    | inr watch ↦ (after_watch p x, merge_watch p x watch, after_watch-Passes p x inv)
  ]

  merge_batch-Passes :
      (p : Progress) (xs : List CheckItem)
      → IsProjection p.current
      → (q : Progress) × (merge_batch clock now p xs ≡ some q) × Passes p xs q
  unfolding merge_batch
  merge_batch-Passes p [] inv = (p, refl, Passes-none p inv)
  merge_batch-Passes p (x ∷ xs) inv =
      let (q, e, a) = merge_event-Passes p x inv in
      let (r, f, b) = merge_batch-Passes q xs a.sound in
      (r, rw e f, Passes-append p q r (x ∷ []) xs a b)

  merge_channels-Passes :
      (p : Progress) (m : GoMap (List CheckItem)) (order : List Bytes)
      → IsProjection p.current
      → (q : Progress) × (merge_channels clock now p m order ≡ some q)
        × Passes p (arrange clock m order) q
  unfolding merge_channels arrange
  merge_channels-Passes p m [] inv = (p, refl, Passes-none p inv)
  merge_channels-Passes p m (c ∷ order) inv =
      let batch = sort_events clock (or_none (index m c)) in
      let (q, e, a) = merge_batch-Passes p batch inv in
      let (r, f, b) = merge_channels-Passes q m order a.sound in
      (r, rw e f, Passes-append p q r batch (arrange clock m order) a b)

  -- From a sound projection `MergePending` returns with a sound one. What it accepts is a part, in
  -- order, of a rearrangement of the events, and holds every event that is neither an own post nor
  -- addressed to the user, as often as it came in.
  pub merge_pending-Accepts :
      (s : State) (items : List CheckItem)
      → IsProjection s
      → (t : State) × (accepted : List CheckItem) × (merge_pending clock now s items
          ≡ some (t, accepted))
        × IsProjection t
        × Sublistᴰ accepted (arranged clock items)
        × Perm (arranged clock items) items
        × (filter watch? accepted ≡ filter watch? (arranged clock items))
  unfolding merge_pending arranged
  merge_pending-Accepts s items inv =
      let g = group_events no_groups items in
      let (q, e, a) =
        merge_channels-Passes (record { calls = 0; current = s; accepted = [] }) g.by_channel
          g.order inv in
      (
        q.current,
        q.accepted,
        rw e,
        a.sound,
        rw a.accepted a.part,
        arranged-perm clock items,
        rw a.accepted a.watched,
      )
