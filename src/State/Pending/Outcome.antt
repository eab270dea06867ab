-- ===== src/State/Pending/Outcome.antt =====
-- The three things that `ApplyPending` can do: refuse, close a channel's item, open a new one.
use uni_chat_sdk.Prelude.{◌≡◌, ◌==◌, Bool, true, false, ◌&&◌, Bool-cases, inl, inr, some, [], arith}
use uni_chat_sdk.Prelude.GoMap.{put, remove, ensure, store-ensure}
use uni_chat_sdk.Prelude.Time.{Time, Rfc3339}
use uni_chat_sdk.Protocol.Types.{CheckItem}
use uni_chat_sdk.State.Defs.{State, valid_pending, next_u64}
use uni_chat_sdk.State.Pending.{
  ensure_pending, behind_pending, behind_resolution, resolution_time, close_pending, open_pending,
  apply_ensured, apply_pending,
}

module _ (clock : Rfc3339) (now : Time) (s : State) (item : CheckItem) where
  -- The state in which an own post leaves the projection.
  abbrev pub closed : State
  closed = record (ensure_pending s) {
    pending = remove (ensure s.pending) item.channel_id;
    pending_resolved_at =
        put s.pending_resolved_at item.channel_id (resolution_time clock now item);
    revision = next_u64 s.revision;
    pending_revision = put s.pending_revision item.channel_id (next_u64 s.revision);
  }

  -- The state in which an addressed post leaves it.
  abbrev pub opened : State
  opened = record (ensure_pending s) {
    pending = put s.pending item.channel_id item;
    pending_resolved_at = remove (ensure s.pending_resolved_at) item.channel_id;
    revision = next_u64 s.revision;
    pending_revision = put s.pending_revision item.channel_id (next_u64 s.revision);
  }

  pub close_pending_lem : close_pending clock now (ensure_pending s) item ≡ some (closed, true)
  unfolding close_pending ensure_pending
  close_pending_lem = simp store-ensure

  pub open_pending_lem : open_pending clock (ensure_pending s) item ≡ some (opened, true)
  unfolding open_pending ensure_pending
  open_pending_lem = simp store-ensure

  -- What both accepting branches have tested.
  pub record IsNews : Type 0 where
    pub named : (item.channel_id == []) ≡ false
    pub after_pending : behind_pending clock (ensure_pending s) item ≡ false
    pub after_resolution : behind_resolution clock (ensure_pending s) item ≡ false

  pub record IsRequest : Type 0 where
    pub foreign : item.own ≡ false
    pub addressed : item.addressed ≡ true
    pub valid : valid_pending item ≡ true

  module _ {ℓ} (P : State → Bool → Type ℓ) where
    abbrev Result : Type ℓ
    Result = (t : State) × (b : Bool) × (apply_pending clock now s item ≡ some (t, b)) × P t b

    -- To prove something of every run, prove it of the three outcomes.
    pub apply_pending_cases :
        (((later : Time) → apply_pending clock later s item ≡ some (ensure_pending s, false))
          → P (ensure_pending s) false)
        → (IsNews → item.own ≡ true → P closed true)
        → (IsNews → IsRequest → P opened true)
        → Result
    unfolding apply_pending apply_ensured
    apply_pending_cases refused own_post request = elim (Bool-cases (item.channel_id == [])) [
      | inl e ↦ (ensure_pending s, false, ground arith, refused (λ later. ground arith))
      | inr named ↦ elim (Bool-cases (behind_pending clock (ensure_pending s) item)) [
        | inl e ↦ (ensure_pending s, false, ground arith, refused (λ later. ground arith))
        | inr p ↦ elim (Bool-cases (behind_resolution clock (ensure_pending s) item)) [
          | inl e ↦ (ensure_pending s, false, ground arith, refused (λ later. ground arith))
          | inr r ↦
              let news : IsNews = record {
                named = named;
                after_pending = p;
                after_resolution = r;
              } in
              elim (Bool-cases item.own) [
                | inl own ↦ (closed, true, ground (arith, close_pending_lem), own_post news own)
                | inr foreign ↦ elim (Bool-cases (item.addressed && valid_pending item)) [
                  | inl h ↦ (
                    opened,
                    true,
                    ground (arith, open_pending_lem),
                    request news (record {
                      foreign = foreign;
                      addressed = ground arith;
                      valid = ground arith;
                    }),
                  )
                  | inr h ↦ (ensure_pending s, false, ground arith, refused (λ later. ground arith))
                ]
              ]
        ]
      ]
    ]
