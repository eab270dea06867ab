-- ===== src/Prelude/GoMap.antt =====
-- Go's `map[string]V`: a nil map reads as empty, and a write to it panics. The program never
-- depends on the order in which a map is ranged over.
use uni_chat_sdk.Prelude.Tests.{if◌then◌else◌}
use uni_chat_sdk.Prelude.Text.{Bytes, ◌==◌, ==_iff, ==_refl}
use mathlib.Core.Path.{◌≡◌, refl}
use mathlib.Core.Logic.{◌≢◌}
use mathlib.Core.Option.{Option, none, some}
use mathlib.Core.List.{List, [], ◌∷◌}
use native.Mathlib.Omega.{arith}

abbrev pub Table {ℓ} : Type ℓ → Type ℓ
Table V = List (Bytes × V)

pub data GoMap {ℓ} (V : Type ℓ) : Type ℓ where
  nil : GoMap V
  made : Table V → GoMap V

module _ {ℓ} {V : Type ℓ} where
  unfoldable pub lookup : Bytes → Table V → Option V
  lookup k [] = none
  lookup k ((j, v) ∷ t) = if j == k then some v else lookup k t

  unfoldable pub without : Bytes → Table V → Table V
  without k [] = []
  without k ((j, v) ∷ t) = let rest = without k t in if j == k then rest else (j, v) ∷ rest

  pub lookup-without :
      (k j : Bytes) (t : Table V) → lookup j (without k t) ≡ (if k == j then none else lookup j t)
  unfolding lookup without
  lookup-without k j [] = ground arith
  lookup-without k j ((i, v) ∷ t) =
      ground (arith, lookup-without k j t, ==_iff i k, ==_iff i j, ==_iff k j)

  -- make(map[string]V), or map[string]V{}
  abbrev pub empty : GoMap V
  empty = made []

  -- m[k], with the comma-ok form's second result
  unfoldable pub index : GoMap V → Bytes → Option V
  unfolding lookup
  index nil k = none
  index (made t) k = lookup k t

  -- m[k] = v
  unfoldable pub store : GoMap V → Bytes → V → Option (GoMap V)
  unfolding without
  store nil k v = none
  store (made t) k v = some (made ((k, v) ∷ without k t))

  -- delete(m, k)
  unfoldable pub remove : GoMap V → Bytes → GoMap V
  unfolding without
  remove nil k = nil
  remove (made t) k = made (without k t)

  -- if m == nil { m = map[string]V{} }
  unfoldable pub ensure : GoMap V → GoMap V
  ensure nil = empty
  ensure (made t) = made t

  -- What a write to a map that is not nil leaves.
  unfoldable pub put : GoMap V → Bytes → V → GoMap V
  unfolding without
  put nil k v = made ((k, v) ∷ [])
  put (made t) k v = made ((k, v) ∷ without k t)

  abbrev pub IsMade : GoMap V → Type 0
  IsMade nil = ⊥
  IsMade (made t) = Unit {0}

  pub index-ensure : (m : GoMap V) (k : Bytes) → index (ensure m) k ≡ index m k
  unfolding index ensure
  index-ensure nil k = refl
  index-ensure (made t) k = refl

  pub store-ensure : (m : GoMap V) (k : Bytes) (v : V) → store (ensure m) k v ≡ some (put m k v)
  unfolding store ensure put
  store-ensure nil k v = refl
  store-ensure (made t) k v = refl

  pub store-put :
      (m : GoMap V) (j k : Bytes) (u v : V) → store (put m j u) k v ≡ some (put (put m j u) k v)
  unfolding store put
  store-put nil j k u v = refl
  store-put (made t) j k u v = refl

  pub store-made : (m : GoMap V) (k : Bytes) (v : V) → IsMade m → store m k v ≡ some (put m k v)
  unfolding store put
  store-made nil k v h = absurd h
  store-made (made t) k v h = refl

  pub ensure-made : (m : GoMap V) → IsMade m → ensure m ≡ m
  unfolding ensure
  ensure-made nil h = absurd h
  ensure-made (made t) h = refl

  pub ensure-IsMade : (m : GoMap V) → IsMade (ensure m)
  unfolding ensure
  ensure-IsMade nil = tt
  ensure-IsMade (made t) = tt

  pub put-IsMade : (m : GoMap V) (k : Bytes) (v : V) → IsMade (put m k v)
  unfolding put
  put-IsMade nil k v = tt
  put-IsMade (made t) k v = tt

  pub remove-IsMade : (m : GoMap V) (k : Bytes) → IsMade m → IsMade (remove m k)
  unfolding remove
  remove-IsMade nil k h = absurd h
  remove-IsMade (made t) k h = tt

  pub index-put :
      (m : GoMap V) (k j : Bytes) (v : V)
      → index (put m k v) j ≡ (if k == j then some v else index m j)
  unfolding index put
  index-put nil k j v = refl
  index-put (made t) k j v = ground (arith, lookup-without k j t)

  pub index-remove :
      (m : GoMap V) (k j : Bytes) → index (remove m k) j ≡ (if k == j then none else index m j)
  unfolding index remove
  index-remove nil k j = ground arith
  index-remove (made t) k j = lookup-without k j t

  pub index-put_self : (m : GoMap V) (k : Bytes) (v : V) → index (put m k v) k ≡ some v
  index-put_self m k v = ground (arith, index-put m k k v, ==_refl k)

  pub index-put_ne : (m : GoMap V) (k j : Bytes) (v : V) → j ≢ k → index (put m k v) j ≡ index m j
  index-put_ne m k j v h = ground (arith, index-put m k j v, ==_iff k j)

  pub index-remove_self : (m : GoMap V) (k : Bytes) → index (remove m k) k ≡ none
  index-remove_self m k = ground (arith, index-remove m k k, ==_refl k)

  pub index-remove_ne : (m : GoMap V) (k j : Bytes) → j ≢ k → index (remove m k) j ≡ index m j
  index-remove_ne m k j h = ground (arith, index-remove m k j, ==_iff k j)

pub ruleset map_laws = (index-ensure, index-put, index-remove)

module _ {ℓ} {V : Type ℓ} where
  -- The entries that a `range` over a map visits: each key once.
  unfoldable pub entries : Table V → Table V
  unfolding without
  entries [] = []
  entries ((k, v) ∷ t) = (k, v) ∷ without k (entries t)

  unfoldable pub range : GoMap V → Table V
  unfolding entries
  range nil = []
  range (made t) = entries t

  -- No key twice.
  abbrev pub Distinct : Table V → Type ℓ
  Distinct [] = Unit
  Distinct ((k, v) ∷ t) = (lookup k t ≡ none) × Distinct t

  without-Distinct : (k : Bytes) (t : Table V) → Distinct t → Distinct (without k t)
  unfolding without
  without-Distinct k [] d = tt
  without-Distinct k ((j, v) ∷ t) d =
      ground (arith, without-Distinct k t d.1, lookup-without k j t, ==_iff j k, ==_iff k j)

  entries-Distinct : (t : Table V) → Distinct (entries t)
  unfolding entries
  entries-Distinct [] = tt
  entries-Distinct ((k, v) ∷ t) = (
    ground (arith, lookup-without k k (entries t), ==_refl k),
    without-Distinct k (entries t) (entries-Distinct t),
  )

  lookup-entries : (k : Bytes) (t : Table V) → lookup k (entries t) ≡ lookup k t
  unfolding entries lookup
  lookup-entries k [] = refl
  lookup-entries k ((j, v) ∷ t) = ground (arith, lookup-without j k (entries t), lookup-entries k t)

  pub range-Distinct : (m : GoMap V) → Distinct (range m)
  unfolding range
  range-Distinct nil = tt
  range-Distinct (made t) = entries-Distinct t

  pub lookup-range : (m : GoMap V) (k : Bytes) → lookup k (range m) ≡ index m k
  unfolding range index
  lookup-range nil k = refl
  lookup-range (made t) k = lookup-entries k t
