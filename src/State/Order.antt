-- ===== src/State/Order.antt =====
-- The order of posts by `compareItems` of state/state.go.
use uni_chat_sdk.Prelude.{
  ℕ, Bytes, ◌≡◌, refl, compare, Ordering, compare_bytes, ◌==◌, [], Option, none, some, arith,
}
use uni_chat_sdk.Prelude.Compare.{
  swap, and_then, Chain, compare_bytes_refl, compare_bytes-swap, compare_bytes-Chain, eq_of_compare,
}
use uni_chat_sdk.Prelude.Time.{Rfc3339}
use uni_chat_sdk.Protocol.Types.{CheckItem}
use uni_chat_sdk.State.Defs.{compare_items, compare_item_to_resolution}

-- Texts that are no time come first, and then the times in their order.
abbrev pub compare_moments : Option ℕ → Option ℕ → Ordering
compare_moments none none = Ordering.eq
compare_moments none (some r) = Ordering.lt
compare_moments (some l) none = Ordering.gt
compare_moments (some l) (some r) = compare l r

compare_moments-swap : (a b : Option ℕ) → compare_moments b a ≡ swap (compare_moments a b)
compare_moments-swap none none = refl
compare_moments-swap none (some r) = refl
compare_moments-swap (some l) none = refl
compare_moments-swap (some l) (some r) = ground arith

compare_moments-Chain :
    (a b c : Option ℕ) → Chain (compare_moments a b) (compare_moments b c) (compare_moments a c)
compare_moments-Chain none none none = refl
compare_moments-Chain none none (some n) = refl
compare_moments-Chain none (some m) none = tt
compare_moments-Chain none (some m) (some n) = ground arith
compare_moments-Chain (some l) none none = refl
compare_moments-Chain (some l) none (some n) = tt
compare_moments-Chain (some l) (some m) none = ground arith
compare_moments-Chain (some l) (some m) (some n) = ground arith

and_then-swap : (p q : Ordering) → and_then (swap p) (swap q) ≡ swap (and_then p q)
and_then-swap Ordering.lt q = refl
and_then-swap Ordering.eq q = refl
and_then-swap Ordering.gt q = refl

and_then-Chain :
    (p q r p' q' r' : Ordering)
    → Chain p q r
    → Chain p' q' r'
    → Chain (and_then p p') (and_then q q') (and_then r r')
and_then-Chain Ordering.lt Ordering.lt r p' q' r' h h' = ground arith
and_then-Chain Ordering.lt Ordering.eq r p' q' r' h h' = ground arith
and_then-Chain Ordering.lt Ordering.gt r p' q' r' h h' = tt
and_then-Chain Ordering.eq q r p' q' r' h h' = ground arith
and_then-Chain Ordering.gt q r p' q' r' h h' = ground arith

module _ (clock : Rfc3339) where
  -- `compareItems` is the lexicographic order by time, valid times after invalid ones, and post id.
  pub compare_items_lem :
      (a b : CheckItem)
      → compare_items clock a b
        ≡ and_then
            (compare_moments (clock.parse a.created_at) (clock.parse b.created_at))
            (compare_bytes a.post_id b.post_id)
  unfolding compare_items
  compare_items_lem a b = ground arith

  pub compare_items_refl : (a : CheckItem) → compare_items clock a a ≡ Ordering.eq
  compare_items_refl a = ground (arith, compare_items_lem a a, compare_bytes_refl a.post_id)

  -- Reversing the arguments reverses the answer.
  pub compare_items-swap :
      (a b : CheckItem) → compare_items clock b a ≡ swap (compare_items clock a b)
  compare_items-swap a b =
      let ma = clock.parse a.created_at in
      let mb = clock.parse b.created_at in
      let pa = a.post_id in
      let pb = b.post_id in
      rw
        (
          compare_items_lem b a,
          compare_items_lem a b,
          compare_moments-swap ma mb,
          compare_bytes-swap pa pb,
        )
        (and_then-swap (compare_moments ma mb) (compare_bytes pa pb))

  pub compare_items-Chain :
      (a b c : CheckItem)
      → Chain (compare_items clock a b) (compare_items clock b c) (compare_items clock a c)
  compare_items-Chain a b c =
      let ma = clock.parse a.created_at in
      let mb = clock.parse b.created_at in
      let mc = clock.parse c.created_at in
      rw (compare_items_lem a b, compare_items_lem b c, compare_items_lem a c)
        (and_then-Chain (compare_moments ma mb) (compare_moments mb mc) (compare_moments ma mc)
          (compare_bytes a.post_id b.post_id) (compare_bytes b.post_id c.post_id)
          (compare_bytes a.post_id c.post_id) (compare_moments-Chain ma mb mc)
          (compare_bytes-Chain a.post_id b.post_id c.post_id))

  moments_of_eq : (p q : Option ℕ) → compare_moments p q ≡ Ordering.eq → p ≡ q
  moments_of_eq p q h = ground arith

  -- Only posts of one moment and one id compare as equal.
  pub compare_items-eq :
      (a b : CheckItem)
      → compare_items clock a b ≡ Ordering.eq
      → (clock.parse a.created_at ≡ clock.parse b.created_at) × (a.post_id ≡ b.post_id)
  compare_items-eq a b h = ground (
    arith,
    compare_items_lem a b,
    moments_of_eq (clock.parse a.created_at) (clock.parse b.created_at),
    eq_of_compare a.post_id b.post_id,
  )

  -- Against a resolution time with no id, only two valid times are compared.
  pub compare_item_to_resolution_lem :
      (a : CheckItem) (t : Bytes)
      → compare_item_to_resolution clock a t [] ≡ (elim (clock.parse a.created_at) [
        | none ↦ Ordering.eq
        | some l ↦ elim (clock.parse t) [ none ↦ Ordering.eq | some r ↦ compare l r ]
      ])
  unfolding compare_item_to_resolution ◌==◌
  compare_item_to_resolution_lem a t = ground arith
