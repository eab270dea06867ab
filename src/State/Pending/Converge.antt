-- ===== src/State/Pending/Converge.antt =====
-- The projection of state/state.go shows the latest post that matters, in whatever order the posts came.
use uni_chat_sdk.Prelude.{
  Bytes, ◌≡◌, ◌≢◌, refl, ◌↔◌, ◌⊎◌, inl, inr, ◌==◌, ==_iff, Bool, true, false, ◌&&◌, ◌||◌, none,
  some, List, [], ◌∷◌, arith, Bool-cases,
}
use uni_chat_sdk.Prelude.GoMap.{index}
use uni_chat_sdk.Prelude.Time.{Time, Rfc3339, IsRfc3339}
use uni_chat_sdk.Protocol.Types.{CheckItem}
use uni_chat_sdk.State.Defs.{State, valid_pending}
use uni_chat_sdk.State.Pending.{ensure_pending, apply_pending}
use uni_chat_sdk.State.Pending.Outcome.{IsNews, closed, opened, apply_pending_cases}
use uni_chat_sdk.State.Pending.Effects.{SameAt, ensure_pending-SameAt, closed-Effect, opened-Effect}
use uni_chat_sdk.State.Pending.Frontier.{news-ahead}
use uni_chat_sdk.State.Pending.Settled.{refused-behind}
use uni_chat_sdk.State.Pending.Once.{apply_all}
use uni_chat_sdk.State.Pending.Latest.{
  matters, has_time, ShowsPost, Shows, Given, shows_same, shows_past, shows_news, shows_other,
  closed-ShowsPost, opened-ShowsPost, shows_nothing,
}

same_iff : {A : Type 0} → A ↔ A
same_iff = ((λ a. a), (λ a. a))

inl_or : {A : Type 0} → A ⊎ ⊥ → A
inl_or (inl a) = a
inl_or (inr n) = absurd n

or_right : {A : Type 0} → ⊥ ⊎ A → A
or_right (inl n) = absurd n
or_right (inr a) = a

turn : {A B C : Type 0} → B ⊎ A ⊎ C → (A ⊎ B) ⊎ C
turn (inl b) = inl (inr b)
turn (inr (inl a)) = inl (inl a)
turn (inr (inr c)) = inr c

turn_back : {A B C : Type 0} → (A ⊎ B) ⊎ C → B ⊎ A ⊎ C
turn_back (inl (inl a)) = inr (inl a)
turn_back (inl (inr b)) = inl b
turn_back (inr c) = inr (inr c)

-- The channel has neither a pending item nor a resolution.
unfoldable pub IsUnheard : Bytes → State → Type 0
IsUnheard k s = (index s.pending k ≡ none) × (index s.pending_resolved_at k ≡ none)

-- Each of the posts that matters has a time.
unfoldable pub IsDated : Rfc3339 → Bytes → (CheckItem → Type 0) → Type 0
IsDated clock k Seen = (i : CheckItem) → Seen i → matters k i ≡ true → has_time clock i ≡ true

module _ (clock : Rfc3339) (ok : IsRfc3339 clock) where
  shows_at :
      {s t : State} {k : Bytes} {P : CheckItem → Type 0}
      → SameAt k s t
      → Shows clock s k P
      → Shows clock t k P
  shows_at same = shows_same clock same.pending same.resolved (λ i. same_iff)

  module _ (now : Time) (s : State) (k : Bytes) (j : CheckItem) (P : CheckItem → Type 0)
      (dated : matters k j ≡ true → has_time clock j ≡ true) (old : Shows clock s k P) where
    abbrev Next : State → Type 0
    Next t = Shows clock t k (λ i. (i ≡ j) ⊎ P i)

    refused_shows :
        apply_pending clock now s j ≡ some (ensure_pending s, false) → Next (ensure_pending s)
    unfolding matters
    refused_shows refused = shows_at (ensure_pending-SameAt k s) (
        shows_past clock ok j
          (λ h. refused-behind clock ok now s j (ground (arith, h)) (ground (arith, h)) refused)
          dated old)

    news_shows :
        (t : State)
        → IsNews clock now s j
        → (j.own || (j.addressed && valid_pending j)) ≡ true
        → ((c : Bytes) → c ≢ j.channel_id → SameAt c s t)
        → (j.channel_id ≡ k → has_time clock j ≡ true → ShowsPost clock t k j)
        → Next t
    unfolding matters
    news_shows t news may elsewhere shows = elim (Bool-cases (j.channel_id == k)) [
      | inl e ↦
          let m : matters k j ≡ true = ground (arith, e, may, news.named) in
          shows_news clock ok j m (dated m) (news-ahead clock now s j news)
            (shows ((==_iff j.channel_id k).0 e) (dated m)) old
      | inr e ↦
          shows_at (elsewhere k (λ same. ground (arith, e, same, ==_iff j.channel_id k)))
            (shows_other clock ok j (ground (arith, e)) old)
    ]

    pub apply_pending-Shows :
        (t : State) × (b : Bool) × (apply_pending clock now s j ≡ some (t, b)) × Next t
    apply_pending-Shows =
        apply_pending_cases clock now s j (λ t _. Next t) (λ refused. refused_shows (refused now))
          (λ news own.
            news_shows (closed clock now s j) news (ground (arith, own))
              (λ c h. (closed-Effect clock now s j).elsewhere c h)
              (λ same d. closed-ShowsPost clock ok now s k j same own d))
          (λ news r.
            news_shows (opened clock now s j) news (ground (arith, r))
              (λ c h. (opened-Effect clock now s j).elsewhere c h)
              (λ same d. opened-ShowsPost clock ok now s k j same r.foreign))

  apply_all-from :
      (calls : List (Time × CheckItem)) (s : State) (k : Bytes) (P : CheckItem → Type 0)
      → IsDated clock k (Given clock calls)
      → Shows clock s k P
      → (u : State) × (apply_all clock calls s ≡ some u)
        × Shows clock u k (λ i. P i ⊎ Given clock calls i)
  unfolding apply_all IsDated Given
  apply_all-from [] s k P dated old = (s, refl, shows_same clock refl refl (λ i. (inl_or, inl)) old)
  apply_all-from ((now, j) ∷ calls) s k P dated old =
      let (t, b, e, n) = apply_pending-Shows now s k j P (dated j (inl refl)) old in
      let (u, f, shows) =
        apply_all-from calls t k (λ i. (i ≡ j) ⊎ P i) (λ i g. dated i (inr g)) n in
      (u, rw e f, shows_same clock refl refl (λ i. (turn, turn_back)) shows)

  -- With a clock that reads back what it prints: any number of calls of `ApplyPending` return, and if
  -- the channel had no entry before and each of its posts that matters, an own one or a valid addressed
  -- one, has a valid time, then its entry is what the latest of these has left: the post itself is
  -- pending, or, if it is own, nothing is pending and its time is the resolution.
  pub apply_all-Shows :
      (calls : List (Time × CheckItem)) (s : State) (k : Bytes)
      → IsUnheard k s
      → IsDated clock k (Given clock calls)
      → (u : State) × (apply_all clock calls s ≡ some u) × Shows clock u k (Given clock calls)
  unfolding IsUnheard
  apply_all-Shows calls s k (p, r) dated =
      let (u, e, shows) =
        apply_all-from calls s k (λ i. ⊥) dated (shows_nothing p r (λ i n. absurd n)) in
      (u, e, shows_same clock refl refl (λ i. (inr, or_right)) shows)
