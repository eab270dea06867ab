-- ===== src/State/Load/Normal.antt =====
-- What `LoadState` of state/state.go promises of the state that it returns.
use uni_chat_sdk.Prelude.{
  ℕ, Bytes, ◌≡◌, refl, sym, ◌∙◌, ◌≤◌, ==_iff, ==_refl, not, ◌&&◌, ◌⊎◌, inl, inr, Option, none, some,
  [], ◌∷◌, ltb, if◌then◌else◌, arith, Bool-cases,
}
use uni_chat_sdk.Prelude.GoMap.{
  GoMap, Table, lookup, index, remove, ensure, range, Distinct, range-Distinct, lookup-range,
  index-remove, index-ensure, IsMade, ensure-IsMade, remove-IsMade,
}
use uni_chat_sdk.Protocol.Types.{CheckItem}
use uni_chat_sdk.State.Defs.{State, valid_pending, is_blank}
use uni_chat_sdk.State.Load.{
  contents, initial_state, raise_revision, is_stray, drop_strays, normalize, load_state,
}

raise_revision-le : (r : ℕ) (t : Table ℕ) → r ≤ raise_revision r t
unfolding raise_revision
raise_revision-le r [] = omega arith
raise_revision-le r ((k, stamp) ∷ t) =
    ground (arith, raise_revision-le (if ltb r stamp then stamp else r) t)

-- The revision is at least each stamp.
raise_revision-covers :
    (r : ℕ) (t : Table ℕ) (k : Bytes) (v : ℕ) → lookup k t ≡ some v → v ≤ raise_revision r t
unfolding raise_revision lookup
raise_revision-covers r [] k v h = ground arith
raise_revision-covers r ((j, stamp) ∷ t) k v h = ground (
  arith,
  raise_revision-le (if ltb r stamp then stamp else r) t,
  raise_revision-covers (if ltb r stamp then stamp else r) t k v,
)

drop_strays-IsMade :
    (m : GoMap CheckItem) (t : Table CheckItem) → IsMade m → IsMade (drop_strays m t)
unfolding drop_strays
drop_strays-IsMade m [] h = h
drop_strays-IsMade m ((k, i) ∷ t) h = elim (Bool-cases (is_stray k i)) [
  | inl e ↦ rw e (drop_strays-IsMade (remove m k) t (remove-IsMade m k h))
  | inr e ↦ rw e (drop_strays-IsMade m t h)
]

-- What is left at a key: nothing where the entry is a stray.
kept : Bytes → Option CheckItem → Option CheckItem → Option CheckItem
kept k none old = old
kept k (some i) old = if is_stray k i then none else old

index-drop_strays :
    (m : GoMap CheckItem) (t : Table CheckItem) (k : Bytes)
    → Distinct t
    → index (drop_strays m t) k ≡ kept k (lookup k t) (index m k)
unfolding drop_strays lookup kept
index-drop_strays m [] k d = refl
index-drop_strays m ((j, i) ∷ t) k d = ground (
  arith,
  index-drop_strays (if is_stray j i then remove m j else m) t k d.1,
  index-remove m j k,
  ==_iff j k,
  d.0,
)

-- The revision is the loaded one or one of the stamps.
raise_revision-attained :
    (r : ℕ) (t : Table ℕ)
    → Distinct t
    → (raise_revision r t ≡ r) ⊎ ((k : Bytes) × (lookup k t ≡ some (raise_revision r t)))
unfolding raise_revision lookup
raise_revision-attained r [] d = inl refl
raise_revision-attained r ((j, stamp) ∷ t) d = elim (Bool-cases (ltb r stamp)) [
  | inl e ↦ rw e (elim (raise_revision-attained stamp t d.1) [
    | inl p ↦ inr (j, ground (arith, ==_refl j, p))
    | inr (k, p) ↦ inr (k, ground (arith, ==_iff j k, d.0, p))
  ])
  | inr e ↦ rw e (elim (raise_revision-attained r t d.1) [
    | inl p ↦ inl p
    | inr (k, p) ↦ inr (k, ground (arith, ==_iff j k, d.0, p))
  ])
]

-- `t` is the decoded state `d` made fit for use.
pub record IsNormal (d t : State) : Type 0 where
  pub made :
      IsMade t.cursors
      × IsMade t.cursor_versions
      × IsMade t.cursor_successors
      × IsMade t.activity
      × IsMade t.pending
      × IsMade t.pending_revision
      × IsMade t.pending_resolved_at
  pub cursors : (k : Bytes) → index t.cursors k ≡ index d.cursors k
  pub versions : (k : Bytes) → index t.cursor_versions k ≡ index d.cursor_versions k
  pub successors : (k : Bytes) → index t.cursor_successors k ≡ index d.cursor_successors k
  pub activity : (k : Bytes) → index t.activity k ≡ index d.activity k
  pub stamps : (k : Bytes) → index t.pending_revision k ≡ index d.pending_revision k
  pub resolved : (k : Bytes) → index t.pending_resolved_at k ≡ index d.pending_resolved_at k
  pub watch : t.watch ≡ d.watch
  pub last_check : t.last_check ≡ d.last_check
  -- A pending item stays exactly where it and its channel's id are valid.
  pub pending :
      (k : Bytes)
      → index t.pending k ≡ (elim (index d.pending k) [
        | none ↦ none
        | some i ↦ if valid_pending i && not (is_blank k) then some i else none
      ])
  -- The revision is the greatest of the loaded one and the stamps.
  pub covers : (k : Bytes) (v : ℕ) → index d.pending_revision k ≡ some v → v ≤ t.revision
  pub grows : d.revision ≤ t.revision
  pub attained :
      (t.revision ≡ d.revision) ⊎ ((k : Bytes) × (index d.pending_revision k ≡ some t.revision))

index-range-ensure {ℓ} :
    {V : Type ℓ} (m : GoMap V) (k : Bytes) → lookup k (range (ensure m)) ≡ index m k
index-range-ensure m k = lookup-range (ensure m) k ∙ index-ensure m k

module _ (d : State) where
  pending-normalize :
      (k : Bytes)
      → index (normalize d).pending k ≡ (elim (index d.pending k) [
        | none ↦ none
        | some i ↦ if valid_pending i && not (is_blank k) then some i else none
      ])
  unfolding normalize is_stray kept
  pending-normalize k = ground (
    arith,
    index-drop_strays (ensure d.pending) (range (ensure d.pending)) k
        (range-Distinct (ensure d.pending)),
    index-range-ensure d.pending k,
    index-ensure d.pending k,
  )

  covers-normalize :
      (k : Bytes) (v : ℕ) → index d.pending_revision k ≡ some v → v ≤ (normalize d).revision
  unfolding normalize
  covers-normalize k v h =
      raise_revision-covers d.revision (range (ensure d.pending_revision)) k v
        (index-range-ensure d.pending_revision k ∙ h)

  attained-normalize :
      ((normalize d).revision ≡ d.revision)
      ⊎ ((k : Bytes) × (index d.pending_revision k ≡ some (normalize d).revision))
  unfolding normalize
  attained-normalize =
      elim (raise_revision-attained d.revision (range (ensure d.pending_revision))
        (range-Distinct (ensure d.pending_revision))) [
          | inl p ↦ inl p
          | inr (k, p) ↦ inr (k, sym (index-range-ensure d.pending_revision k) ∙ p)
        ]

  normalize-IsNormal : IsNormal d (normalize d)
  unfolding normalize
  normalize-IsNormal = record {
    made = (
      ensure-IsMade d.cursors,
      ensure-IsMade d.cursor_versions,
      ensure-IsMade d.cursor_successors,
      ensure-IsMade d.activity,
      drop_strays-IsMade (ensure d.pending) (range (ensure d.pending)) (ensure-IsMade d.pending),
      ensure-IsMade d.pending_revision,
      ensure-IsMade d.pending_resolved_at,
    );
    cursors = index-ensure d.cursors;
    versions = index-ensure d.cursor_versions;
    successors = index-ensure d.cursor_successors;
    activity = index-ensure d.activity;
    stamps = index-ensure d.pending_revision;
    resolved = index-ensure d.pending_resolved_at;
    watch = refl;
    last_check = refl;
    pending = pending-normalize;
    covers = covers-normalize;
    grows = raise_revision-le d.revision (range (ensure d.pending_revision));
    attained = attained-normalize;
  }

-- A file that is read and decodes gives a state that is normal, and no error: no map is nil, the
-- maps but `pending` hold what was decoded, `pending` holds just the decoded items that are valid,
-- and the revision is the greatest of the decoded one and the stamps.
pub load_state-IsNormal :
    (decode : Bytes → State → State × Option Bytes) (b : Bytes) (d : State)
    → decode b initial_state ≡ (d, none)
    → (t : State) × (load_state decode (contents b) ≡ (t, none)) × IsNormal d t
unfolding load_state
load_state-IsNormal decode b d h = (normalize d, rw h, normalize-IsNormal d)
