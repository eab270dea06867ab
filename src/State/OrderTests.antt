-- ===== src/State/OrderTests.antt =====
-- Runs of ApplyPending of state/state.go over the same posts in two orders.
use mathlib.Core.Bool.{Bool-set}
use mathlib.Core.List.{Mem, not-mem-nil, mem-cons_self, eq-or-mem_of_mem-cons}
use mathlib.Core.Logic.{∨₁_prop, ∥∥₁_elim, ∥∥₁_prop, ∥∥₁_map}
use mathlib.Core.Logic.Or
use uni_chat_sdk.Prelude.{
  ℕ, ◌+◌, ◌⊎◌, ◌≡◌, refl, ◌∙◌, ◌↔◌, inl, inr, sym, true, false, some, List, [], ◌∷◌, arith,
}
use uni_chat_sdk.Prelude.GoMap.{index}
use uni_chat_sdk.Prelude.Time.{Time, number_clock, number_clock-IsRfc3339}
use uni_chat_sdk.Protocol.Types.{CheckItem}
use uni_chat_sdk.State.Defs.{State}
use uni_chat_sdk.State.Load.{initial_state}
use uni_chat_sdk.State.Merge.Entries.{Checks, Delivered, merge_all, merge_all-apply_all}
use uni_chat_sdk.State.Pending.Once.{apply_all}
use uni_chat_sdk.State.Pending.Latest.{has_time, not_later, Shows, Given}
use uni_chat_sdk.State.Pending.Converge.{IsDated, IsUnheard, apply_all-Shows}
use uni_chat_sdk.State.Pending.AnyOrder.{IsApart, SameEntry, apply_all-SameEntry}
use uni_chat_sdk.State.Tests.{town, request, later_request}

abbrev calls : List (Time × CheckItem)
calls = (3, request) ∷ (4, later_request) ∷ []

abbrev others : List (Time × CheckItem)
others = (5, later_request) ∷ (6, request) ∷ (7, request) ∷ []

unheard : IsUnheard town initial_state
unfolding IsUnheard index
unheard = (refl, refl)

dated : IsDated number_clock town (Given number_clock calls)
unfolding IsDated Given has_time number_clock
dated i (inl e) h = rw e refl
dated i (inr (inl e)) h = rw e refl
dated i (inr (inr n)) h = elim n [ ]

not_earlier : not_later number_clock later_request request ≡ false
unfolding not_later number_clock
not_earlier = refl

clash : (i j : CheckItem) → i ≡ later_request → j ≡ request → not_later number_clock i j ≡ true → ⊥
clash i j e f b =
    let q : not_later number_clock i j ≡ not_later number_clock later_request request =
      rw (e, f) refl in
    ground (arith, b, q, not_earlier)

apart : IsApart number_clock town (Given number_clock calls)
unfolding IsApart Given not_later number_clock
apart i j (inl e) (inl f) m n b c = e ∙ sym f
apart i j (inl e) (inr (inl f)) m n b c = absurd (clash j i f e c)
apart i j (inr (inl e)) (inl f) m n b c = absurd (clash i j e f b)
apart i j (inr (inl e)) (inr (inl f)) m n b c = e ∙ sym f
apart i j (inr (inr x)) g m n b c = elim x [ ]
apart i j (inl e) (inr (inr x)) m n b c = elim x [ ]
apart i j (inr (inl e)) (inr (inr x)) m n b c = elim x [ ]

same_posts : (i : CheckItem) → Given number_clock calls i ↔ Given number_clock others i
unfolding Given
same_posts i = (there, back)
  where
    there : Given number_clock calls i → Given number_clock others i
    there (inl e) = inr (inl e)
    there (inr (inl e)) = inl e
    there (inr (inr n)) = elim n [ ]

    back : Given number_clock others i → Given number_clock calls i
    back (inl e) = inr (inl e)
    back (inr (inl e)) = inl e
    back (inr (inr (inl e))) = inl e
    back (inr (inr (inr n))) = elim n [ ]

apply_all-Shows_example :
    (u : State) × (apply_all number_clock calls initial_state ≡ some u)
    × Shows number_clock u town (Given number_clock calls)
apply_all-Shows_example =
    apply_all-Shows number_clock number_clock-IsRfc3339 calls initial_state town unheard dated

apply_all-SameEntry_example :
    (u v : State) × (apply_all number_clock calls initial_state ≡ some u)
    × (apply_all number_clock others initial_state ≡ some v)
    × SameEntry town u v
apply_all-SameEntry_example =
    apply_all-SameEntry number_clock number_clock-IsRfc3339 calls others initial_state initial_state
      town same_posts unheard unheard dated apart

abbrev clock_from : ℕ → ℕ → Time
clock_from start count = start + count

abbrev checks : Checks
checks = (clock_from 3, later_request ∷ []) ∷ (clock_from 8, request ∷ later_request ∷ []) ∷ []

CheckItem-set : IsSet CheckItem
CheckItem-set = hlevel

delivered : (i : CheckItem) → Delivered checks i ↔ ∥ Given number_clock calls i ∥₁
unfolding Delivered Given
delivered i = (
  (λ h.
      Or.elim ∥∥₁_prop h (λ m. ∥∥₁_map (eq-or-mem_of_mem-cons m) later)
        (λ k. Or.elim ∥∥₁_prop k both (λ n. absurd n))),
  λ h. ∥∥₁_elim h ∨₁_prop back,
)
  where
    later : (i ≡ later_request) ⊎ Mem i [] → Given number_clock calls i
    later (inl e) = inr (inl e)
    later (inr n) = absurd (not-mem-nil n)

    both : Mem i (request ∷ later_request ∷ []) → ∥ Given number_clock calls i ∥₁
    both m =
        Or.elim ∥∥₁_prop (eq-or-mem_of_mem-cons m) (λ e. ∣ inl e ∣₁)
          (λ n. ∥∥₁_map (eq-or-mem_of_mem-cons n) later)

    back : Given number_clock calls i → Delivered checks i
    back (inl e) = Or.inr (Or.inl (rw e mem-cons_self))
    back (inr (inl e)) = Or.inl (rw e mem-cons_self)
    back (inr (inr n)) = absurd n

dated-Delivered : IsDated number_clock town (Delivered checks)
unfolding IsDated
dated-Delivered i d h = ∥∥₁_elim ((delivered i).0 d) (Bool-set _ _) (λ g. dated i g h)

apart-Delivered : IsApart number_clock town (Delivered checks)
unfolding IsApart
apart-Delivered i j d e m n b c =
    ∥∥₁_elim ((delivered i).0 d) (CheckItem-set _ _)
      (λ g. ∥∥₁_elim ((delivered j).0 e) (CheckItem-set _ _) (λ h. apart i j g h m n b c))

merge_all-apply_all_example :
    (u v : State) × (merge_all number_clock checks initial_state ≡ some u)
    × (apply_all number_clock calls initial_state ≡ some v)
    × SameEntry town u v
merge_all-apply_all_example =
    merge_all-apply_all number_clock number_clock-IsRfc3339 checks calls initial_state initial_state
      town delivered unheard unheard dated-Delivered apart-Delivered
