-- ===== src/State/Pending/AnyOrder.antt =====
-- `ApplyPending` of state/state.go gives the same entry whatever order the posts come in.
use uni_chat_sdk.Prelude.{Bytes, ◌≡◌, sym, ◌∙◌, ◌↔◌, true, some, List, arith}
use uni_chat_sdk.Prelude.GoMap.{index}
use uni_chat_sdk.Prelude.Time.{Time, Rfc3339, IsRfc3339}
use uni_chat_sdk.Protocol.Types.{CheckItem}
use uni_chat_sdk.State.Defs.{State}
use uni_chat_sdk.State.Pending.Once.{apply_all}
use uni_chat_sdk.State.Pending.Latest.{
  matters, not_later, ShowsPost, Shows, Given, shows_nothing, shows_post,
}
use uni_chat_sdk.State.Pending.Converge.{IsDated, IsUnheard, apply_all-Shows}

-- No two of the posts that matter have the same time.
unfoldable pub IsApart : Rfc3339 → Bytes → (CheckItem → Type 0) → Type 0
IsApart clock k Seen =
    (i j : CheckItem)
    → Seen i
    → Seen j
    → matters k i ≡ true
    → matters k j ≡ true
    → not_later clock i j ≡ true
    → not_later clock j i ≡ true
    → i ≡ j

pub record SameEntry (k : Bytes) (s t : State) : Type 0 where
  pub pending : index t.pending k ≡ index s.pending k
  pub resolved : index t.pending_resolved_at k ≡ index s.pending_resolved_at k

module _ (clock : Rfc3339) (ok : IsRfc3339 clock) where
  same_post :
      {u v : State} {k : Bytes} (m n : CheckItem)
      → m ≡ n
      → ShowsPost clock u k m
      → ShowsPost clock v k n
      → SameEntry k u v
  unfolding ShowsPost
  same_post m n e (a, b) (c, d) = record {
    pending = ground (arith, a, c, e);
    resolved = ground (arith, b, d, e);
  }

  pub same_entry :
      {k : Bytes} {P Q : CheckItem → Type 0} (u v : State)
      → ((i : CheckItem) → P i ↔ Q i)
      → IsApart clock k P
      → Shows clock u k P
      → Shows clock v k Q
      → SameEntry k u v
  unfolding IsApart
  same_entry u v same apart (shows_nothing a b n) (shows_nothing c d n') = record {
    pending = c ∙ sym a;
    resolved = d ∙ sym b;
  }
  same_entry u v same apart (shows_nothing a b n) (shows_post m seen h t e l) =
      absurd (ground (arith, h, n m ((same m).1 seen)))
  same_entry u v same apart (shows_post m seen h t e l) (shows_nothing c d n) =
      absurd (ground (arith, h, n m ((same m).0 seen)))
  same_entry u v same apart (shows_post m seen h t e l) (shows_post m' seen' h' t' e' l') =
      same_post m m'
        (apart m m' seen ((same m').1 seen') h h' (l' m ((same m).0 seen) h)
          (l m' ((same m').1 seen') h'))
        e e'

  -- With a clock that reads back what it prints: two runs of calls of `ApplyPending` with the same
  -- posts, in any order, any number of times each and at any times of day, from any two states in which
  -- the channel has no entry, leave the same pending item and the same resolution in the channel, if
  -- each of its posts that matters, an own one or a valid addressed one, has a valid time and no two
  -- such posts have the same time.
  pub apply_all-SameEntry :
      (calls others : List (Time × CheckItem)) (s t : State) (k : Bytes)
      → ((i : CheckItem) → Given clock calls i ↔ Given clock others i)
      → IsUnheard k s
      → IsUnheard k t
      → IsDated clock k (Given clock calls)
      → IsApart clock k (Given clock calls)
      → (u v : State) × (apply_all clock calls s ≡ some u)
        × (apply_all clock others t ≡ some v)
        × SameEntry k u v
  unfolding IsDated
  apply_all-SameEntry calls others s t k same su tu dated apart =
      let (u, e, a) = apply_all-Shows clock ok calls s k su dated in
      let (v, f, b) = apply_all-Shows clock ok others t k tu (λ i g. dated i ((same i).1 g)) in
      (u, v, e, f, same_entry u v same apart a b)
