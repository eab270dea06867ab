-- ===== src/State/Cursor/Maps.antt =====
-- The maps of maps that `RecordCursor` of state/state.go allocates and writes.
use uni_chat_sdk.Prelude.{
  ℕ, Bytes, ◌≡◌, refl, ◌==◌, ==_iff, not, ◌&&◌, none, some, [], arith, if◌then◌else◌,
}
use uni_chat_sdk.Prelude.GoMap.{
  GoMap, nil, made, empty, index, store, ensure, put, index-ensure, index-put, store-ensure,
  ensure-IsMade, put-IsMade, IsMade,
}
use uni_chat_sdk.State.Cursor.{or_nil, ensure_inner}

module _ {ℓ} {V : Type ℓ} where
  -- The outer map after `ensure_inner`.
  pub grown : GoMap (GoMap V) → Bytes → GoMap (GoMap V)
  grown outer k = elim (or_nil (index outer k)) [ nil ↦ put outer k empty | inner ↦ ensure outer ]

  index_nil : (k : Bytes) → index {V = V} nil k ≡ none
  unfolding index
  index_nil k = refl

  index-empty : (k : Bytes) → index {V = V} empty k ≡ none
  unfolding index
  index-empty k = refl

  pub ensure_inner_lem :
      (outer : GoMap (GoMap V)) (k : Bytes)
      → ensure_inner (ensure outer) k ≡ some (grown outer k, ensure (or_nil (index outer k)))
  unfolding ensure_inner grown ensure
  ensure_inner_lem outer k = ground (arith, index-ensure outer k, store-ensure outer k empty)

  pub grown-IsMade : (outer : GoMap (GoMap V)) (k : Bytes) → IsMade (grown outer k)
  unfolding grown
  grown-IsMade outer k =
      elim (or_nil (index outer k))
        as (λ m. IsMade (elim m [ nil ↦ put outer k empty | inner ↦ ensure outer ])) [
          | nil ↦ put-IsMade outer k empty
          | made t ↦ ensure-IsMade outer
        ]

  pub index-grown :
      (outer : GoMap (GoMap V)) (k j b : Bytes)
      → index (or_nil (index (grown outer k) j)) b ≡ index (or_nil (index outer j)) b
  unfolding grown
  index-grown outer k j b = ground (
    arith,
    index-ensure outer j,
    index-put outer k j empty,
    ==_iff k j,
    index_nil b,
    index-empty b,
  )

-- The versions after the base has been made known.
pub rooted : GoMap ℕ → Bytes → GoMap ℕ
rooted versions base =
    if base == []
    then ensure versions
    else elim (index versions base) [ none ↦ put versions base 0 | some v ↦ ensure versions ]

pub root_lem :
    (versions : GoMap ℕ) (base : Bytes)
    → (if base == [] then some (ensure versions) else elim (index versions base) [
      | none ↦ store (ensure versions) base 0
      | some v ↦ some (ensure versions)
    ])
      ≡ some (rooted versions base)
unfolding rooted
root_lem versions base = ground (arith, store-ensure versions base 0)

pub rooted-IsMade : (versions : GoMap ℕ) (base : Bytes) → IsMade (rooted versions base)
unfolding rooted
rooted-IsMade versions base = ground (arith, ensure-IsMade versions, put-IsMade versions base 0)

pub index-rooted :
    (versions : GoMap ℕ) (base j : Bytes)
    → index (rooted versions base) j ≡ (
        if not (base == []) && (base == j)
        then (elim (index versions j) [ none ↦ some 0 | some v ↦ some v ])
        else index versions j)
unfolding rooted
index-rooted versions base j =
    ground (arith, index-ensure versions j, index-put versions base j 0, ==_iff base j)
