-- ===== src/State/Cursor/Advance.antt =====
-- What `AdvanceCursor` of state/state.go promises, alone and after `RecordCursor`.
use uni_chat_sdk.Prelude.{
  Bytes, ◌≡◌, refl, ◌∙◌, ap, ◌==◌, ==_refl, Bool, true, false, not, ◌&&◌, ◌||◌, none, some, [],
  arith, if◌then◌else◌, Bool-cases, inl, inr,
}
use mathlib.Core.Path.{subst}
use uni_chat_sdk.Prelude.GoMap.{GoMap, index, index-put, put, store-ensure}
use uni_chat_sdk.State.Defs.{State}
use uni_chat_sdk.State.Pending.{or_empty}
use uni_chat_sdk.State.Cursor.{record_cursor, advance_cursor}
use uni_chat_sdk.State.Cursor.Chart.{successor}
use uni_chat_sdk.State.Cursor.Contract.{accepts, Recorded, record_cursor-Recorded}

-- The channel's active cursor, empty at the start.
abbrev pub cursor : State → Bytes → Bytes
cursor s channel = or_empty (index s.cursors channel)

-- The one move that is allowed: to the recorded successor of the active cursor.
abbrev pub moves : State → Bytes → Bytes → Bool
moves s channel candidate =
    not ((channel == []) || (candidate == []))
    && not (cursor s channel == candidate)
    && (elim (successor s channel (cursor s channel)) [ none ↦ false | some x ↦ x == candidate ])

-- All but the cursors is as it was.
pub record SameButCursors (s t : State) : Type 0 where
  pub versions : t.cursor_versions ≡ s.cursor_versions
  pub successors : t.cursor_successors ≡ s.cursor_successors
  pub activity : t.activity ≡ s.activity
  pub watch : t.watch ≡ s.watch
  pub pending : t.pending ≡ s.pending
  pub revision : t.revision ≡ s.revision
  pub stamps : t.pending_revision ≡ s.pending_revision
  pub resolved : t.pending_resolved_at ≡ s.pending_resolved_at
  pub last_check : t.last_check ≡ s.last_check

pub record Advanced (s : State) (channel candidate : Bytes) (t : State) (accepted : Bool)
    : Type 0 where
  pub answer : accepted ≡ moves s channel candidate
  pub position :
      (j : Bytes) → cursor t j ≡ (if accepted && (channel == j) then candidate else cursor s j)
  pub outside : SameButCursors s t

module _ (s : State) (channel candidate : Bytes) where
  advanced : State
  advanced = record s { cursors = put s.cursors channel candidate }

  refused_move :
      moves s channel candidate ≡ false → advance_cursor s channel candidate ≡ some (s, false)
  unfolding advance_cursor successor
  refused_move h = ground arith

  made_move :
      moves s channel candidate ≡ true → advance_cursor s channel candidate ≡ some (advanced, true)
  unfolding advance_cursor successor advanced
  made_move h = ground (arith, store-ensure s.cursors channel candidate)

  -- Every call returns. It moves the channel's cursor to the candidate, and answers that it did,
  -- exactly when the candidate is the recorded successor of the active cursor; no other cursor
  -- moves, and the rest of the state stays.
  pub advance_cursor-Advanced :
      (t : State) × (accepted : Bool) × (advance_cursor s channel candidate ≡ some (t, accepted))
      × Advanced s channel candidate t accepted
  unfolding advanced
  advance_cursor-Advanced = elim (Bool-cases (moves s channel candidate)) [
    | inl h ↦ (
      advanced,
      true,
      made_move h,
      record {
        answer = ground arith;
        position = λ j. ground (arith, index-put s.cursors channel j candidate);
        outside = ground arith;
      },
    )
    | inr h ↦ (
      s,
      false,
      refused_move h,
      record { answer = ground arith; position = λ j. refl; outside = ground arith },
    )
  ]

-- Once the successor of the active cursor is recorded, the move to it is allowed.
moves-Recorded :
    (s t : State) (channel candidate : Bytes)
    → accepts s channel (cursor s channel) candidate ≡ true
    → Recorded s channel (cursor s channel) candidate t true
    → moves t channel candidate ≡ true
unfolding accepts
moves-Recorded s t channel candidate h r =
    let stays : cursor t channel ≡ cursor s channel =
      ap (λ (m : GoMap Bytes). or_empty (index m channel)) r.outside.cursors in
    rw stays (
      ground (
        arith,
        h,
        r.links channel (cursor s channel),
        ==_refl channel,
        ==_refl (cursor s channel),
        ==_refl candidate,
      ))

-- A check that observes a successor of the active cursor, which `RecordCursor` accepts, and then
-- acks it moves the cursor there.
pub advance_cursor-record_cursor :
    (s : State) (channel candidate : Bytes)
    → accepts s channel (cursor s channel) candidate ≡ true
    → (t : State) × (u : State) × (record_cursor s channel (cursor s channel) candidate
        ≡ some (t, true))
      × (advance_cursor t channel candidate ≡ some (u, true))
      × (cursor u channel ≡ candidate)
advance_cursor-record_cursor s channel candidate h =
    let (t, b, e, r) = record_cursor-Recorded s channel (cursor s channel) candidate in
    let (u, c, f, a) = advance_cursor-Advanced t channel candidate in
    let yes_b : b ≡ true = r.answer ∙ h in
    let yes_c : c ≡ true =
      a.answer
      ∙ moves-Recorded s t channel candidate h
          (subst (Recorded s channel (cursor s channel) candidate t) yes_b r) in
    (
      t,
      u,
      e ∙ ap (λ (x : Bool). some (t, x)) yes_b,
      f ∙ ap (λ (x : Bool). some (u, x)) yes_c,
      a.position channel ∙ rw (yes_c, ==_refl channel),
    )
