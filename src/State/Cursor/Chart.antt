-- ===== src/State/Cursor/Chart.antt =====
-- What `RecordCursor` writes, seen as two partial functions for each channel: the successor of a
-- cursor and the version of a cursor. Whether a map is nil, empty or missing does not show there.
use uni_chat_sdk.Prelude.{
  ℕ, Bytes, ◌≡◌, ◌∙◌, ◌==◌, ==_iff, Bool, true, false, not, inl, inr, ◌&&◌, ◌||◌, Option, none,
  some, [], arith, if◌then◌else◌, Bool-cases, Option-cases,
}
use uni_chat_sdk.Prelude.GoMap.{
  GoMap, index, ensure, put, index-ensure, index-put, store-ensure, store-made,
}
use uni_chat_sdk.State.Defs.{State, next_u64}
use uni_chat_sdk.State.Cursor.{or_nil, or_zero, extend, record_observed, record_cursor}
use uni_chat_sdk.State.Cursor.Maps.{
  grown, ensure_inner_lem, grown-IsMade, index-grown, rooted, root_lem, rooted-IsMade, index-rooted,
}

unfoldable pub successor : State → Bytes → Bytes → Option Bytes
successor s channel base = index (or_nil (index s.cursor_successors channel)) base

unfoldable pub version : State → Bytes → Bytes → Option ℕ
version s channel cursor = index (or_nil (index s.cursor_versions channel)) cursor

module _ (s : State) (channel base candidate : Bytes) where
  pub versions_at : GoMap ℕ
  versions_at = or_nil (index s.cursor_versions channel)

  successors_at : GoMap Bytes
  successors_at = or_nil (index s.cursor_successors channel)

  -- The state once the maps for the channel are there.
  unfoldable pub prepared : State
  prepared = record s {
    cursor_versions = grown s.cursor_versions channel;
    cursor_successors = grown s.cursor_successors channel;
  }

  -- The state with the new successor and its version.
  unfoldable pub extended : State
  unfolding versions_at successors_at
  extended = record s {
    cursor_versions =
        put (grown s.cursor_versions channel) channel
          (put (rooted versions_at base) candidate (next_u64 (or_zero (index versions_at base))));
    cursor_successors =
        put (grown s.cursor_successors channel) channel (put successors_at base candidate);
  }

  extend_lem :
      extend prepared channel (ensure versions_at) (ensure successors_at) base candidate
      ≡ some (extended, true)
  unfolding extend prepared extended
  extend_lem = simp (
    index-ensure,
    root_lem versions_at base,
    store-made _ candidate (next_u64 (or_zero (index versions_at base)))
        (rooted-IsMade versions_at base),
    store-ensure,
    store-made (grown s.cursor_versions channel) channel _ (grown-IsMade s.cursor_versions channel),
    store-made (grown s.cursor_successors channel) channel _
        (grown-IsMade s.cursor_successors channel),
  )

  abbrev pub bad_arguments : Bool
  bad_arguments = (channel == []) || (candidate == []) || (base == candidate)

  record_cursor_good :
      bad_arguments ≡ false
      → record_cursor s channel base candidate
        ≡ record_observed prepared channel
            (ensure versions_at)
            (ensure successors_at)
            base
            candidate
  unfolding record_cursor prepared versions_at successors_at
  record_cursor_good good = simp (good, ensure_inner_lem)

  observed_known :
      (old : Bytes)
      → successor s channel base ≡ some old
      → record_observed prepared channel (ensure versions_at) (ensure successors_at) base candidate
        ≡ some (prepared, old == candidate)
  unfolding record_observed successor successors_at
  observed_known old h =
      ground (arith, index-ensure (or_nil (index s.cursor_successors channel)) base)

  observed_clash :
      (v : ℕ)
      → successor s channel base ≡ none
      → version s channel candidate ≡ some v
      → record_observed prepared channel (ensure versions_at) (ensure successors_at) base candidate
        ≡ some (prepared, false)
  unfolding record_observed successor version successors_at versions_at
  observed_clash v h k = ground (
    arith,
    index-ensure (or_nil (index s.cursor_successors channel)) base,
    index-ensure (or_nil (index s.cursor_versions channel)) candidate,
  )

  observed_fresh :
      successor s channel base ≡ none
      → version s channel candidate ≡ none
      → record_observed prepared channel (ensure versions_at) (ensure successors_at) base candidate
        ≡ some (extended, true)
  unfolding record_observed successor version successors_at versions_at
  observed_fresh h k = ground (
    arith,
    index-ensure (or_nil (index s.cursor_successors channel)) base,
    index-ensure (or_nil (index s.cursor_versions channel)) candidate,
    extend_lem,
  )

  module _ {ℓ} (P : State → Bool → Type ℓ) where
    -- To prove something of every call, prove it of the four outcomes.
    pub record_cursor_cases :
        (bad_arguments ≡ true → P s false)
        → ((old : Bytes)
            → bad_arguments ≡ false
            → successor s channel base ≡ some old
            → P prepared (old == candidate))
        → ((v : ℕ)
            → bad_arguments ≡ false
            → successor s channel base ≡ none
            → version s channel candidate ≡ some v
            → P prepared false)
        → (bad_arguments ≡ false
            → successor s channel base ≡ none
            → version s channel candidate ≡ none
            → P extended true)
        → (t : State) × (accepted : Bool) × (record_cursor s channel base candidate
            ≡ some (t, accepted))
          × P t accepted
    record_cursor_cases bad known clash fresh = elim (Bool-cases bad_arguments) [
      | inl e ↦ (s, false, unfold record_cursor in rw e, bad e)
      | inr good ↦ elim (Option-cases (successor s channel base)) [
        | inr (old, e) ↦ (
          prepared,
          old == candidate,
          record_cursor_good good ∙ observed_known old e,
          known old good e,
        )
        | inl e ↦ elim (Option-cases (version s channel candidate)) [
          | inr (v, f) ↦
              (prepared, false, record_cursor_good good ∙ observed_clash v e f, clash v good e f)
          | inl f ↦ (extended, true, record_cursor_good good ∙ observed_fresh e f, fresh good e f)
        ]
      ]
    ]

  pub successor-prepared : (j x : Bytes) → successor prepared j x ≡ successor s j x
  unfolding successor prepared
  successor-prepared j x = index-grown s.cursor_successors channel j x

  pub version-prepared : (j x : Bytes) → version prepared j x ≡ version s j x
  unfolding version prepared
  version-prepared j x = index-grown s.cursor_versions channel j x

  pub successor-extended :
      (j x : Bytes)
      → successor extended j x
        ≡ (if (channel == j) && (base == x) then some candidate else successor s j x)
  unfolding successor extended
  successor-extended j x = ground (
    arith,
    index-put (grown s.cursor_successors channel) channel j
        (put (or_nil (index s.cursor_successors channel)) base candidate),
    index-put (or_nil (index s.cursor_successors channel)) base x candidate,
    index-grown s.cursor_successors channel j x,
    ==_iff channel j,
  )

  pub version-extended :
      (j x : Bytes)
      → version extended j x ≡ (
          if channel == j
          then if candidate == x
            then some (next_u64 (or_zero (version s channel base)))
            else if not (base == []) && (base == x)
            then (elim (version s channel x) [ none ↦ some 0 | some v ↦ some v ])
            else version s channel x
          else version s j x)
  unfolding version extended
  version-extended j x =
      let versions = or_nil (index s.cursor_versions channel) in
      ground (
        arith,
        index-put (grown s.cursor_versions channel) channel j
            (put (rooted versions base) candidate (next_u64 (or_zero (index versions base)))),
        index-put (rooted versions base) candidate x (next_u64 (or_zero (index versions base))),
        index-rooted versions base x,
        index-grown s.cursor_versions channel j x,
        ==_iff channel j,
      )
