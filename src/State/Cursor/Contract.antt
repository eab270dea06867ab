-- ===== src/State/Cursor/Contract.antt =====
-- What `RecordCursor` promises, and the invariant of the chart of cursors.
use uni_chat_sdk.Prelude.{
  Bytes, ◌≡◌, ◌≢◌, refl, ◌==◌, ==_iff, Bool, true, false, not, ◌&&◌, none, some, [], arith,
  if◌then◌else◌,
}
use uni_chat_sdk.State.Defs.{State, next_u64}
use uni_chat_sdk.State.Cursor.{or_zero, record_cursor}
use uni_chat_sdk.State.Cursor.Chart.{
  successor, version, prepared, extended, bad_arguments, record_cursor_cases, successor-prepared,
  version-prepared, successor-extended, version-extended,
}

-- All but the chart is as it was.
pub record SameOutside (s t : State) : Type 0 where
  pub cursors : t.cursors ≡ s.cursors
  pub activity : t.activity ≡ s.activity
  pub watch : t.watch ≡ s.watch
  pub pending : t.pending ≡ s.pending
  pub revision : t.revision ≡ s.revision
  pub stamps : t.pending_revision ≡ s.pending_revision
  pub resolved : t.pending_resolved_at ≡ s.pending_resolved_at
  pub last_check : t.last_check ≡ s.last_check

-- The answer: a base that has a successor confirms that one alone, and a base that has none takes
-- any candidate that the channel does not know.
unfoldable pub accepts : State → Bytes → Bytes → Bytes → Bool
accepts s channel base candidate =
    not (bad_arguments s channel base candidate) && (elim (successor s channel base) [
      | some old ↦ old == candidate
      | none ↦ elim (version s channel candidate) [ none ↦ true | some v ↦ false ]
    ])

pub record Recorded (s : State) (channel base candidate : Bytes) (t : State) (accepted : Bool)
    : Type 0 where
  pub answer : accepted ≡ accepts s channel base candidate
  pub links :
      (j x : Bytes)
      → successor t j x
        ≡ (if accepted && ((channel == j) && (base == x)) then some candidate else successor s j x)
  pub outside : SameOutside s t

module _ (s : State) (channel base candidate : Bytes) where
  -- Every call returns. It answers by `accepts`; after an accepted call the base leads to the
  -- candidate; every other successor, and all outside the chart, is as it was.
  pub record_cursor-Recorded :
      (t : State) × (accepted : Bool) × (record_cursor s channel base candidate
        ≡ some (t, accepted))
      × Recorded s channel base candidate t accepted
  unfolding accepts prepared extended
  record_cursor-Recorded =
      record_cursor_cases s channel base candidate (Recorded s channel base candidate)
        (λ bad. record { answer = ground arith; links = λ j x. refl; outside = ground arith })
        (λ old good h. record {
          answer = ground arith;
          links = λ j x. ground (
            arith,
            successor-prepared s channel base candidate j x,
            ==_iff channel j,
            ==_iff base x,
            ==_iff old candidate,
          );
          outside = ground arith;
        })
        (λ v good h k. record {
          answer = ground arith;
          links = λ j x. successor-prepared s channel base candidate j x;
          outside = ground arith;
        })
        (λ good h k. record {
          answer = ground arith;
          links = λ j x. successor-extended s channel base candidate j x;
          outside = ground arith;
        })

-- The chart is a set of chains: a successor's version is one more than its base's, every base but
-- the empty cursor has a version, and no cursor is the successor of two.
pub record IsChart (s : State) : Type 0 where
  pub linked :
      (j b c : Bytes)
      → successor s j b ≡ some c
      → version s j c ≡ some (next_u64 (or_zero (version s j b)))
  pub known : (j b c : Bytes) → successor s j b ≡ some c → b ≢ [] → version s j b ≢ none
  pub unique : (j a b c : Bytes) → successor s j a ≡ some c → successor s j b ≡ some c → a ≡ b

module _ (s : State) (channel base candidate : Bytes) (inv : IsChart s) where
  prepared-IsChart : IsChart (prepared s channel base candidate)
  prepared-IsChart = record {
    linked = λ j b c.
        simp
          (successor-prepared s channel base candidate, version-prepared s channel base candidate)
          (inv.linked j b c);
    known = λ j b c.
        simp
          (successor-prepared s channel base candidate, version-prepared s channel base candidate)
          (inv.known j b c);
    unique = λ j a b c. simp (successor-prepared s channel base candidate) (inv.unique j a b c);
  }

  module _ (good : bad_arguments s channel base candidate ≡ false)
      (last : successor s channel base ≡ none) (new : version s channel candidate ≡ none) where
    extended-linked :
        (j b c : Bytes)
        → successor (extended s channel base candidate) j b ≡ some c
        → version (extended s channel base candidate) j c
          ≡ some (next_u64 (or_zero (version (extended s channel base candidate) j b)))
    extended-linked j b c h = ground (
      arith,
      good,
      last,
      new,
      successor-extended s channel base candidate j b,
      version-extended s channel base candidate j b,
      version-extended s channel base candidate j c,
      inv.linked j b c,
      inv.known j b c,
      ==_iff channel j,
      ==_iff base b,
      ==_iff base c,
      ==_iff candidate b,
      ==_iff candidate c,
      ==_iff base candidate,
      ==_iff candidate [],
      ==_iff base [],
    )

    extended-known :
        (j b c : Bytes)
        → successor (extended s channel base candidate) j b ≡ some c
        → b ≢ []
        → version (extended s channel base candidate) j b ≢ none
    extended-known j b c h nonempty unknown = ground (
      arith,
      successor-extended s channel base candidate j b,
      version-extended s channel base candidate j b,
      inv.known j b c,
      ==_iff channel j,
      ==_iff base b,
      ==_iff base [],
    )

    extended_unique :
        (j a b c : Bytes)
        → successor (extended s channel base candidate) j a ≡ some c
        → successor (extended s channel base candidate) j b ≡ some c
        → a ≡ b
    extended_unique j a b c h k = ground (
      arith,
      new,
      successor-extended s channel base candidate j a,
      successor-extended s channel base candidate j b,
      inv.unique j a b c,
      inv.linked j a c,
      inv.linked j b c,
      ==_iff channel j,
      ==_iff base a,
      ==_iff base b,
    )

    extended-IsChart : IsChart (extended s channel base candidate)
    extended-IsChart = record {
      linked = extended-linked;
      known = extended-known;
      unique = extended_unique;
    }

  -- On a chart that is a set of chains `RecordCursor` returns and leaves a chart that is one, whatever
  -- it answers.
  pub record_cursor-IsChart :
      (t : State) × (accepted : Bool) × (record_cursor s channel base candidate
        ≡ some (t, accepted))
      × IsChart t
  record_cursor-IsChart =
      record_cursor_cases s channel base candidate (λ t _. IsChart t) (λ _. inv)
        (λ _ _ _. prepared-IsChart) (λ _ _ _ _. prepared-IsChart) extended-IsChart
