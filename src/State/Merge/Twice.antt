-- ===== src/State/Merge/Twice.antt =====
-- A check that delivers the same events again: `MergePending` of state/state.go takes none of the
-- own and addressed ones a second time.
use mathlib.Core.List.{filter, append_assoc, append-nil}
use uni_chat_sdk.Prelude.{
  ℕ, Bytes, ◌≡◌, refl, sym, ◌∙◌, ap, true, false, ◌||◌, Option, none, some, List, [], ◌∷◌, ◌++◌,
  arith, ◌>>=◌, Bool-cases, inl, inr,
}
use uni_chat_sdk.Prelude.GoMap.{GoMap, index}
use uni_chat_sdk.Prelude.Time.{Time, Rfc3339, IsRfc3339}
use uni_chat_sdk.Protocol.Types.{CheckItem}
use uni_chat_sdk.State.Defs.{State}
use uni_chat_sdk.State.Pending.{ensure_pending}
use uni_chat_sdk.State.Merge.{
  or_none, group_events, sort_events, Progress, merge_event, merge_batch, merge_channels,
  merge_pending,
}
use uni_chat_sdk.State.Merge.Group.{no_groups}
use uni_chat_sdk.State.Merge.Contract.{
  arrange, arranged, watch?, after_watch, after_request, merge_watch, merge_request,
}
use uni_chat_sdk.State.Pending.Settled.{
  refuses, apply_pending-refuses, refuses-ensured, apply_pending-Settles,
}

bind_assoc :
    {A B C : Type 0} (m : Option A) (f : A → Option B) (g : B → Option C)
    → ((m >>= f) >>= g) ≡ (m >>= λ a. f a >>= g)
bind_assoc none f g = refl
bind_assoc (some a) f g = refl

bind_congr :
    {A B : Type 0} (m : Option A) (f g : A → Option B)
    → ((a : A) → f a ≡ g a)
    → (m >>= f) ≡ (m >>= g)
bind_congr none f g h = refl
bind_congr (some a) f g h = h a

module _ (clock : Rfc3339) (now : ℕ → Time) where
  merge_batch-append :
      (p : Progress) (xs ys : List CheckItem)
      → merge_batch clock now p (xs ++ ys)
        ≡ (merge_batch clock now p xs >>= λ q. merge_batch clock now q ys)
  unfolding merge_batch
  merge_batch-append p [] ys = refl
  merge_batch-append p (x ∷ xs) ys =
      bind_congr (merge_event clock now p x) _ _ (λ q. merge_batch-append q xs ys)
      ∙ sym (bind_assoc (merge_event clock now p x) _ _)

  merge_channels-arrange :
      (p : Progress) (m : GoMap (List CheckItem)) (order : List Bytes)
      → merge_channels clock now p m order ≡ merge_batch clock now p (arrange clock m order)
  unfolding merge_channels arrange
  merge_channels-arrange p m [] = unfold merge_batch in refl
  merge_channels-arrange p m (c ∷ order) =
      bind_congr (merge_batch clock now p (sort_events clock (or_none (index m c)))) _ _
        (λ q. merge_channels-arrange q m order)
      ∙ sym (merge_batch-append p (sort_events clock (or_none (index m c))) (arrange clock m order))

  -- `MergePending` is one pass over the rearranged events.
  pub merge_pending-pass :
      (s : State) (items : List CheckItem)
      → merge_pending clock now s items ≡ (
          merge_batch clock now
            (record { calls = 0; current = s; accepted = [] })
            (arranged clock items)
          >>= λ p. some (p.current, p.accepted))
  unfolding merge_pending arranged
  merge_pending-pass s items =
      let g = group_events no_groups items in
      ap (λ r. r >>= λ (p : Progress). some (p.current, p.accepted))
        (merge_channels-arrange (record { calls = 0; current = s; accepted = [] }) g.by_channel
          g.order)

module _ (clock : Rfc3339) (ok : IsRfc3339 clock) where
  -- Every own or addressed event of the list is refused in the state.
  abbrev AllSettled : State → List CheckItem → Type 0
  AllSettled s [] = Unit {0}
  AllSettled s (x ∷ xs) =
      ((x.own || x.addressed) ≡ true → refuses clock ok s x ≡ true) × AllSettled s xs

  AllSettled-mono :
      (s t : State) (xs : List CheckItem)
      → ((i : CheckItem) → refuses clock ok s i ≡ true → refuses clock ok t i ≡ true)
      → AllSettled s xs
      → AllSettled t xs
  AllSettled-mono s t [] f a = tt
  AllSettled-mono s t (x ∷ xs) f a = ((λ h. f x (a.0 h)), AllSettled-mono s t xs f a.1)

  module _ (now : ℕ → Time) where
    event_settles :
        (p : Progress) (x : CheckItem)
        → (q : Progress) × (merge_event clock now p x ≡ some q)
          × ((i : CheckItem)
              → refuses clock ok p.current i ≡ true
              → refuses clock ok q.current i ≡ true)
          × ((x.own || x.addressed) ≡ true → refuses clock ok q.current x ≡ true)
    event_settles p x = elim (Bool-cases (x.own || x.addressed)) [
      | inl h ↦
          let (t, b, e, settled) = apply_pending-Settles clock ok (now p.calls) p.current x in
          (
            after_request clock now p x t b,
            merge_request clock now p x t b h e,
            (unfold after_request in settled.keeps),
            λ _. unfold after_request in settled.settles,
          )
      | inr h ↦ (
        after_watch clock now p x,
        merge_watch clock now p x h,
        (unfold after_watch in λ i k. k),
        λ k. absurd (ground (arith, h, k)),
      )
    ]

    batch_settles :
        (p : Progress) (xs : List CheckItem)
        → (q : Progress) × (merge_batch clock now p xs ≡ some q)
          × ((i : CheckItem)
              → refuses clock ok p.current i ≡ true
              → refuses clock ok q.current i ≡ true)
          × AllSettled q.current xs
    unfolding merge_batch
    batch_settles p [] = (p, refl, (λ i h. h), tt)
    batch_settles p (x ∷ xs) =
        let (q, e, keeps, settles) = event_settles p x in
        let (r, f, keeps', rest) = batch_settles q xs in
        (r, rw e f, (λ i h. keeps' i (keeps i h)), ((λ h. keeps' x (settles h)), rest))

    after_refusal :
        (p : Progress) (x : CheckItem) (xs : List CheckItem)
        → (x.own || x.addressed) ≡ true
        → (after_request clock now p x (ensure_pending p.current) false).accepted
            ++ filter watch? xs
          ≡ p.accepted ++ filter watch? (x ∷ xs)
    unfolding after_request
    after_refusal p x xs h = ground arith

    after_watched :
        (p : Progress) (x : CheckItem) (xs : List CheckItem)
        → (x.own || x.addressed) ≡ false
        → (after_watch clock now p x).accepted ++ filter watch? xs
          ≡ p.accepted ++ filter watch? (x ∷ xs)
    unfolding after_watch
    after_watched p x xs h = append_assoc p.accepted (x ∷ []) (filter watch? xs) ∙ ground arith

    -- A pass over events that are settled takes the watch events alone.
    batch_settled :
        (p : Progress) (xs : List CheckItem)
        → AllSettled p.current xs
        → (q : Progress) × (merge_batch clock now p xs ≡ some q)
          × (q.accepted ≡ p.accepted ++ filter watch? xs)
    unfolding merge_batch
    batch_settled p [] a = (p, refl, sym (append-nil p.accepted))
    batch_settled p (x ∷ xs) a = elim (Bool-cases (x.own || x.addressed)) [
      | inl h ↦
          let q = after_request clock now p x (ensure_pending p.current) false in
          let settled : AllSettled (ensure_pending p.current) xs =
            AllSettled-mono p.current _ xs (λ i k. refuses-ensured clock ok p.current i ∙ k) a.1 in
          let (r, e, f) = batch_settled q xs (unfold after_request in settled) in
          (
            r,
            rw
                (merge_request clock now p x _ false h
                  (apply_pending-refuses clock ok (now p.calls) p.current x (a.0 h)))
                e,
            f ∙ after_refusal p x xs h,
          )
      | inr h ↦
          let q = after_watch clock now p x in
          let (r, e, f) = batch_settled q xs (unfold after_watch in a.1) in
          (r, rw (merge_watch clock now p x h) e, f ∙ after_watched p x xs h)
    ]

  -- With a clock that reads back what it prints: `MergePending` returns, and when the same events come in again, at any time, it takes of them
  -- just those that are neither own posts nor addressed to the user.
  pub merge_pending-again :
      (now later : ℕ → Time) (s : State) (items : List CheckItem)
      → (t : State) × (accepted : List CheckItem) × (u : State) × (merge_pending clock now s items
          ≡ some (t, accepted))
        × (merge_pending clock later t items ≡ some (u, filter watch? (arranged clock items)))
  merge_pending-again now later s items =
      let (q, e, keeps, settled) =
        batch_settles now (record { calls = 0; current = s; accepted = [] })
          (arranged clock items) in
      let (r, f, g) =
        batch_settled later (record { calls = 0; current = q.current; accepted = [] })
          (arranged clock items) settled in
      (
        q.current,
        q.accepted,
        r.current,
        merge_pending-pass clock now s items ∙ rw e,
        merge_pending-pass clock later q.current items ∙ rw (f, g),
      )
