-- ===== src/State/Pending/Latest.antt =====
-- What the projection of state/state.go shows after any number of calls of `ApplyPending`.
use uni_chat_sdk.Prelude.{
  ℕ, Bytes, ◌≡◌, refl, sym, ◌∙◌, ◌↔◌, ◌⊎◌, inl, inr, ap, ◌==◌, ==_iff, Bool, true, false, not, ◌&&◌,
  ◌||◌, Option, none, some, List, [], ◌∷◌, arith, if◌then◌else◌, Bool-cases,
}
use uni_chat_sdk.Prelude.GoMap.{index, index-put_self, index-remove_self, ensure}
use uni_chat_sdk.Prelude.Time.{Time, Rfc3339, IsRfc3339}
use uni_chat_sdk.Protocol.Types.{CheckItem}
use uni_chat_sdk.State.Defs.{State, valid_pending, not_after, compare_items}
use uni_chat_sdk.State.Order.{compare_moments, compare_items_lem, compare_item_to_resolution_lem}
use uni_chat_sdk.State.Pending.{resolution_time}
use uni_chat_sdk.State.Pending.Outcome.{closed, opened}
use uni_chat_sdk.State.Pending.Frontier.{behind, behind_item, behind_time}

-- A post of the channel that asks something of the user, or answers.
unfoldable pub matters : Bytes → CheckItem → Bool
matters k i =
    not (i.channel_id == []) && (i.channel_id == k) && (i.own || (i.addressed && valid_pending i))

pub matters-channel : (k : Bytes) (i : CheckItem) → matters k i ≡ true → i.channel_id ≡ k
unfolding matters
matters-channel k i h = (==_iff i.channel_id k).0 (ground (arith, h))

moments_refl : (a : Option ℕ) → not_after (compare_moments a a) ≡ true
moments_refl none = refl
moments_refl (some t) = ground arith

moments_trans :
    (a b c : Option ℕ)
    → not_after (compare_moments a b) ≡ true
    → not_after (compare_moments b c) ≡ true
    → not_after (compare_moments a c) ≡ true
moments_trans none none c h k = k
moments_trans none (some t) c h k = ground arith
moments_trans (some t) none c h k = ground arith
moments_trans (some t) (some u) none h k = ground arith
moments_trans (some t) (some u) (some v) h k = ground arith

module _ (clock : Rfc3339) where
  unfoldable pub has_time : CheckItem → Bool
  has_time i = elim (clock.parse i.created_at) [ none ↦ false | some t ↦ true ]

  -- The time of `i` is not after that of `j`.
  unfoldable pub not_later : CheckItem → CheckItem → Bool
  not_later i j = not_after (compare_moments (clock.parse i.created_at) (clock.parse j.created_at))

  pub not_later_refl : (i : CheckItem) → not_later i i ≡ true
  unfolding not_later
  not_later_refl i = moments_refl (clock.parse i.created_at)

  pub not_later_trans :
      (i j l : CheckItem) → not_later i j ≡ true → not_later j l ≡ true → not_later i l ≡ true
  unfolding not_later
  not_later_trans i j l =
      moments_trans (clock.parse i.created_at) (clock.parse j.created_at) (clock.parse l.created_at)

  -- The channel's entry is what the post `m` has left.
  unfoldable pub ShowsPost : State → Bytes → CheckItem → Type 0
  ShowsPost s k m =
      (index s.pending k ≡ (if m.own then none else some m))
      × (index s.pending_resolved_at k ≡ (if m.own then some m.created_at else none))

  -- Of the posts that `Seen` holds of, none matters to the channel and it has no entry, or its entry is
  -- what the latest one that matters has left.
  pub data Shows (s : State) (k : Bytes) (Seen : CheckItem → Type 0) : Type 0 where
    shows_nothing :
        (index s.pending k ≡ none)
        → (index s.pending_resolved_at k ≡ none)
        → ((i : CheckItem) → Seen i → matters k i ≡ false)
        → Shows s k Seen
    shows_post :
        (m : CheckItem)
        → Seen m
        → matters k m ≡ true
        → has_time m ≡ true
        → ShowsPost s k m
        → ((i : CheckItem) → Seen i → matters k i ≡ true → not_later i m ≡ true)
        → Shows s k Seen

  -- Of the posts that were handed over in calls.
  unfoldable pub Given : List (Time × CheckItem) → CheckItem → Type 0
  Given [] i = ⊥
  Given ((now, j) ∷ calls) i = (i ≡ j) ⊎ Given calls i

  pub shows_same :
      {s t : State} {k : Bytes} {P Q : CheckItem → Type 0}
      → index t.pending k ≡ index s.pending k
      → index t.pending_resolved_at k ≡ index s.pending_resolved_at k
      → ((i : CheckItem) → Q i ↔ P i)
      → Shows s k P
      → Shows t k Q
  unfolding ShowsPost
  shows_same p r e (shows_nothing a b n) = shows_nothing (p ∙ a) (r ∙ b) (λ i q. n i ((e i).0 q))
  shows_same p r e (shows_post m seen h d (a, b) n) =
      shows_post m ((e m).1 seen) h d (p ∙ a, r ∙ b) (λ i q. n i ((e i).0 q))

  pub behind_nothing :
      (s : State) (k : Bytes) (j : CheckItem)
      → j.channel_id ≡ k
      → index s.pending k ≡ none
      → index s.pending_resolved_at k ≡ none
      → behind clock s j ≡ false
  unfolding behind behind_item behind_time ◌==◌
  behind_nothing s k j same a b =
      ground (arith, a, b, ap (index s.pending) same, ap (index s.pending_resolved_at) same)

  behind_post :
      (s : State) (k : Bytes) (m j : CheckItem)
      → j.channel_id ≡ k
      → ShowsPost s k m
      → behind clock s j
        ≡ (if m.own then behind_time clock m.created_at j else not_after (compare_items clock j m))
  unfolding behind behind_item behind_time ShowsPost ◌==◌
  behind_post s k m j same (a, b) =
      ground (arith, a, b, ap (index s.pending) same, ap (index s.pending_resolved_at) same)

  module _ (ok : IsRfc3339 clock) where
    pub ne_empty : (m : CheckItem) → has_time m ≡ true → (m.created_at == []) ≡ false
    unfolding has_time
    ne_empty m h = ground (arith, h, ok.parse_empty, ==_iff m.created_at [])

    -- Behind the channel's post: not later. Not behind it: the post is not later.
    behind-not_later :
        (s : State) (k : Bytes) (m j : CheckItem)
        → j.channel_id ≡ k
        → ShowsPost s k m
        → has_time j ≡ true
        → has_time m ≡ true
        → behind clock s j ≡ true
        → not_later j m ≡ true
    unfolding behind_time has_time not_later
    behind-not_later s k m j same shows hj hm h = ground (
      arith,
      behind_post s k m j same shows,
      ne_empty m hm,
      compare_items_lem clock j m,
      compare_item_to_resolution_lem clock j m.created_at,
    )

    ahead-not_later :
        (s : State) (k : Bytes) (m j : CheckItem)
        → j.channel_id ≡ k
        → ShowsPost s k m
        → has_time j ≡ true
        → has_time m ≡ true
        → behind clock s j ≡ false
        → not_later m j ≡ true
    unfolding behind_time has_time not_later
    ahead-not_later s k m j same shows hj hm h = ground (
      arith,
      behind_post s k m j same shows,
      ne_empty m hm,
      compare_items_lem clock j m,
      compare_item_to_resolution_lem clock j m.created_at,
    )

    older :
        {s : State} {k : Bytes} {P : CheckItem → Type 0} (j : CheckItem)
        → matters k j ≡ true
        → has_time j ≡ true
        → behind clock s j ≡ false
        → Shows s k P
        → (i : CheckItem) → P i
        → matters k i ≡ true
        → not_later i j ≡ true
    older j h d news (shows_nothing a b n) i p hi = absurd (ground (arith, n i p, hi))
    older {s = s} {k = k} j h d news (shows_post m seen hm dm e n) i p hi =
        not_later_trans i m j (n i p hi)
          (ahead-not_later s k m j (matters-channel k j h) e d dm news)

    -- A new post that does not matter, or is not after what the channel shows, changes nothing.
    pub shows_past :
        {s : State} {k : Bytes} {P : CheckItem → Type 0} (j : CheckItem)
        → (matters k j ≡ true → behind clock s j ≡ true)
        → (matters k j ≡ true → has_time j ≡ true)
        → Shows s k P
        → Shows s k (λ i. (i ≡ j) ⊎ P i)
    shows_past {s = s} {k = k} j late dated (shows_nothing a b n) = shows_nothing a b (λ i q.
        elim q [
          | inl e ↦ rw e (elim (Bool-cases (matters k j)) [
            | inl h ↦
                absurd (ground (arith, late h, behind_nothing s k j (matters-channel k j h) a b))
            | inr h ↦ h
          ])
          | inr p ↦ n i p
        ])
    shows_past {s = s} {k = k} j late dated (shows_post m seen h d e n) =
        shows_post m (inr seen) h d e (λ i q. elim q [
          | inl same ↦ λ hi.
              let hj : matters k j ≡ true = rw (sym same) hi in
              rw same (behind-not_later s k m j (matters-channel k j hj) e (dated hj) d (late hj))
          | inr p ↦ n i p
        ])

    -- A post that matters and is news is what the channel shows then.
    pub shows_news :
        {s t : State} {k : Bytes} {P : CheckItem → Type 0} (j : CheckItem)
        → matters k j ≡ true
        → has_time j ≡ true
        → behind clock s j ≡ false
        → ShowsPost t k j
        → Shows s k P
        → Shows t k (λ i. (i ≡ j) ⊎ P i)
    shows_news {s = s} {k = k} j h d news shows old = shows_post j (inl refl) h d shows (λ i q hi.
        elim q [
          | inl same ↦ rw same (not_later_refl j)
          | inr p ↦ older {s = s} j h d news old i p hi
        ])

    pub shows_other :
        {s : State} {k : Bytes} {P : CheckItem → Type 0} (j : CheckItem)
        → matters k j ≡ false
        → Shows s k P
        → Shows s k (λ i. (i ≡ j) ⊎ P i)
    shows_other j h =
        shows_past j (λ e. absurd (ground (arith, e, h))) (λ e. absurd (ground (arith, e, h)))

    module _ (now : Time) (s : State) (k : Bytes) (j : CheckItem) where
      pub closed-ShowsPost :
          j.channel_id ≡ k → j.own ≡ true → has_time j ≡ true → ShowsPost (closed clock now s j) k j
      unfolding ShowsPost resolution_time
      closed-ShowsPost same own d = (
        ground (arith, own, same, index-remove_self (ensure s.pending) j.channel_id),
        ground (
          arith,
          own,
          same,
          ne_empty j d,
          index-put_self s.pending_resolved_at j.channel_id (resolution_time clock now j),
        ),
      )

      pub opened-ShowsPost : j.channel_id ≡ k → j.own ≡ false → ShowsPost (opened clock now s j) k j
      unfolding ShowsPost
      opened-ShowsPost same other = (
        ground (arith, other, same, index-put_self s.pending j.channel_id j),
        ground (arith, other, same, index-remove_self (ensure s.pending_resolved_at) j.channel_id),
      )
