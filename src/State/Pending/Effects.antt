-- ===== src/State/Pending/Effects.antt =====
-- What `ApplyPending` changes, and the invariant of the pending projection.
use uni_chat_sdk.Prelude.{
  Bytes, ◌≡◌, ◌≢◌, refl, sym, ◌∙◌, ==_iff, Bool, true, false, none, some, arith, if◌then◌else◌,
}
use uni_chat_sdk.Prelude.GoMap.{
  index, map_laws, index-ensure, index-put_self, index-put_ne, index-remove_ne, ensure,
}
use uni_chat_sdk.Prelude.Time.{Time, Rfc3339}
use uni_chat_sdk.Protocol.Types.{CheckItem}
use uni_chat_sdk.State.Defs.{State, valid_pending, next_u64}
use uni_chat_sdk.State.Pending.{ensure_pending, apply_pending}
use uni_chat_sdk.State.Pending.Outcome.{IsRequest, closed, opened, apply_pending_cases}

-- All that is not the pending projection is as it was.
pub record SameRest (s t : State) : Type 0 where
  pub cursors : t.cursors ≡ s.cursors
  pub versions : t.cursor_versions ≡ s.cursor_versions
  pub successors : t.cursor_successors ≡ s.cursor_successors
  pub activity : t.activity ≡ s.activity
  pub watch : t.watch ≡ s.watch
  pub last_check : t.last_check ≡ s.last_check

-- The projection's entries at one channel are as they were.
pub record SameAt (k : Bytes) (s t : State) : Type 0 where
  pub pending : index t.pending k ≡ index s.pending k
  pub revision : index t.pending_revision k ≡ index s.pending_revision k
  pub resolved : index t.pending_resolved_at k ≡ index s.pending_resolved_at k

-- An accepted item steps the revision and stamps its channel with it; a refused one does neither.
pub record Stamped (channel : Bytes) (s t : State) (accepted : Bool) : Type 0 where
  pub counter : t.revision ≡ (if accepted then next_u64 s.revision else s.revision)
  pub stamp :
      index t.pending_revision channel
      ≡ (if accepted then some (next_u64 s.revision) else index s.pending_revision channel)

pub record Effect (channel : Bytes) (s t : State) (accepted : Bool) : Type 0 where
  pub rest : SameRest s t
  pub elsewhere : (k : Bytes) → k ≢ channel → SameAt k s t
  pub stamped : Stamped channel s t accepted
  pub refused : accepted ≡ false → SameAt channel s t

pub ensure_pending-SameAt : (k : Bytes) (s : State) → SameAt k s (ensure_pending s)
unfolding ensure_pending
ensure_pending-SameAt k s = record {
  pending = index-ensure s.pending k;
  revision = index-ensure s.pending_revision k;
  resolved = index-ensure s.pending_resolved_at k;
}

ensure_pending-SameRest : (s : State) → SameRest s (ensure_pending s)
unfolding ensure_pending
ensure_pending-SameRest s = record {
  cursors = refl;
  versions = refl;
  successors = refl;
  activity = refl;
  watch = refl;
  last_check = refl;
}

module _ (clock : Rfc3339) (now : Time) (s : State) (item : CheckItem) where
  refused-Effect : Effect item.channel_id s (ensure_pending s) false
  unfolding ensure_pending
  refused-Effect = record {
    rest = ground arith;
    elsewhere = λ k h. ensure_pending-SameAt k s;
    stamped = record { counter = refl; stamp = index-ensure s.pending_revision item.channel_id };
    refused = λ _. ensure_pending-SameAt item.channel_id s;
  }

  pub closed-Effect : Effect item.channel_id s (closed clock now s item) true
  unfolding ensure_pending
  closed-Effect = record {
    rest = ground arith;
    elsewhere = λ k h. record {
      pending = index-remove_ne (ensure s.pending) _ k h ∙ index-ensure s.pending k;
      revision = index-put_ne s.pending_revision _ k _ h;
      resolved = index-put_ne s.pending_resolved_at _ k _ h;
    };
    stamped = record { counter = refl; stamp = index-put_self s.pending_revision _ _ };
    refused = λ e. cc;
  }

  pub opened-Effect : Effect item.channel_id s (opened clock now s item) true
  unfolding ensure_pending
  opened-Effect = record {
    rest = ground arith;
    elsewhere = λ k h. record {
      pending = index-put_ne s.pending _ k _ h;
      revision = index-put_ne s.pending_revision _ k _ h;
      resolved =
          index-remove_ne (ensure s.pending_resolved_at) _ k h
          ∙ index-ensure s.pending_resolved_at k;
    };
    stamped = record { counter = refl; stamp = index-put_self s.pending_revision _ _ };
    refused = λ e. cc;
  }

  -- Every call returns. It touches no other channel and no other part of the state; it steps the
  -- revision, and stamps the channel with it, exactly when it reports a change; and when it reports
  -- none the channel's entries are as they were.
  pub apply_pending-Effect :
      (t : State) × (accepted : Bool) × (apply_pending clock now s item ≡ some (t, accepted))
      × Effect item.channel_id s t accepted
  apply_pending-Effect =
      apply_pending_cases clock now s item (Effect item.channel_id s) (λ _. refused-Effect)
        (λ _ _. closed-Effect) (λ _ _. opened-Effect)

-- What the code means the projection to be: each entry is a valid addressed post of its channel,
-- by someone else, and no channel is both waiting and resolved.
pub record IsProjection (s : State) : Type 0 where
  pub entry :
      (k : Bytes) (i : CheckItem)
      → index s.pending k ≡ some i
      → (i.channel_id ≡ k) × (i.own ≡ false) × (i.addressed ≡ true) × (valid_pending i ≡ true)
  pub exclusive :
      (k : Bytes) (i : CheckItem)
      → index s.pending k ≡ some i
      → index s.pending_resolved_at k ≡ none

module _ (clock : Rfc3339) (now : Time) (s : State) (item : CheckItem) (inv : IsProjection s) where
  refused-IsProjection : IsProjection (ensure_pending s)
  unfolding ensure_pending
  refused-IsProjection = record {
    entry = λ k i h. inv.entry k i (sym (index-ensure s.pending k) ∙ h);
    exclusive = λ k i h.
        index-ensure s.pending_resolved_at k
        ∙ inv.exclusive k i (sym (index-ensure s.pending k) ∙ h);
  }

  closed-IsProjection : IsProjection (closed clock now s item)
  unfolding ensure_pending
  closed-IsProjection = record {
    entry = λ k i. simp map_laws (ground (arith, ==_iff item.channel_id k, inv.entry k i));
    exclusive = λ k i. simp map_laws (ground (arith, ==_iff item.channel_id k, inv.exclusive k i));
  }

  opened-IsProjection : IsRequest clock now s item → IsProjection (opened clock now s item)
  unfolding ensure_pending
  opened-IsProjection r = record {
    entry = λ k i. simp map_laws (ground (arith, ==_iff item.channel_id k, inv.entry k i, r));
    exclusive = λ k i. simp map_laws (ground (arith, ==_iff item.channel_id k, inv.exclusive k i));
  }

  -- On a sound projection `ApplyPending` returns and leaves a sound one, whether it accepts the item
  -- or not.
  pub apply_pending-IsProjection :
      (t : State) × (accepted : Bool) × (apply_pending clock now s item ≡ some (t, accepted))
      × IsProjection t
  apply_pending-IsProjection =
      apply_pending_cases clock now s item (λ t _. IsProjection t) (λ _. refused-IsProjection)
        (λ _ _. closed-IsProjection) (λ _ r. opened-IsProjection r)
