-- ===== src/State/Activity/Newest.antt =====
-- What `RecordActivity` of state/state.go promises: the index holds the newest time of a channel.
use uni_chat_sdk.Prelude.{
  Bytes, ◌≡◌, ◌≢◌, sym, ◌∙◌, ap, ◌≤◌, ◌<◌, ==_iff, Bool, true, false, not, Option, none, some, [],
  ltb, if◌then◌else◌, arith, Bool-cases, inl, inr,
}
use uni_chat_sdk.Prelude.GoMap.{
  index, ensure, put, store-ensure, index-put_self, index-put_ne, index-ensure,
}
use uni_chat_sdk.Prelude.Time.{Time, Rfc3339, IsRfc3339, first_time, last_time}
use uni_chat_sdk.State.Defs.{State, is_blank}
use uni_chat_sdk.State.Pending.{or_empty}
use uni_chat_sdk.State.Activity.{no_later, record_time, record_activity}

module _ (clock : Rfc3339) where
  -- The time that the index holds for a channel, where it holds a valid one.
  unfoldable pub last_seen : State → Bytes → Option Time
  last_seen s channel = clock.parse (or_empty (index s.activity channel))

  abbrev pub later_of : Option Time → Time → Time
  later_of none t = t
  later_of (some u) t = if ltb u t then t else u

  abbrev pub is_newer : Option Time → Time → Bool
  is_newer none t = true
  is_newer (some u) t = ltb u t

  newer : (o : Option Time) (t : Time) → is_newer o t ≡ true → t ≡ later_of o t
  newer o t e = ground arith

  older : (o : Option Time) (t : Time) → is_newer o t ≡ false → o ≡ some (later_of o t)
  older o t e = ground arith

  module _ (ok : IsRfc3339 clock) where
    no_later_lem :
        (s : State) (channel : Bytes) (t : Time)
        → no_later clock (or_empty (index (ensure s.activity) channel)) t
          ≡ not (is_newer (last_seen s channel) t)
    unfolding no_later last_seen
    no_later_lem s channel t = ground (
      arith,
      index-ensure s.activity channel,
      ==_iff (or_empty (index s.activity channel)) [],
      ok.parse_empty,
    )

    record_time_lem :
        (s : State) (channel candidate : Bytes) (t : Time)
        → is_blank channel ≡ false
        → is_blank candidate ≡ false
        → clock.parse candidate ≡ some t
        → record_activity clock s channel candidate ≡ record_time clock s channel t
    unfolding record_activity
    record_time_lem s channel candidate t h k p = ground arith

    recorded : State → Bytes → Time → State
    recorded s channel t = record s { activity = put s.activity channel (clock.format t) }

    unchanged : State → State
    unchanged s = record s { activity = ensure s.activity }

    record_newer :
        (s : State) (channel : Bytes) (t : Time)
        → is_newer (last_seen s channel) t ≡ true
        → record_time clock s channel t ≡ some (recorded s channel t, true)
    unfolding record_time recorded
    record_newer s channel t e =
        simp (no_later_lem s channel t, e, store-ensure s.activity channel (clock.format t))

    record_older :
        (s : State) (channel : Bytes) (t : Time)
        → is_newer (last_seen s channel) t ≡ false
        → record_time clock s channel t ≡ some (unchanged s, false)
    unfolding record_time unchanged
    record_older s channel t e = simp (no_later_lem s channel t, e)

    last_seen-recorded :
        (s : State) (channel : Bytes) (t : Time)
        → first_time ≤ t
        → t < last_time
        → last_seen (recorded s channel t) channel ≡ some t
    unfolding last_seen recorded
    last_seen-recorded s channel t lo hi =
        rw (index-put_self s.activity channel (clock.format t), last_seen) (ok.parse-format t lo hi)

    last_seen-unchanged :
        (s : State) (channel : Bytes) → last_seen (unchanged s) channel ≡ last_seen s channel
    unfolding last_seen unchanged
    last_seen-unchanged s channel =
        ap (λ o. clock.parse (or_empty o)) (index-ensure s.activity channel)

    -- With a clock that reads back what it prints, and a valid time of the years 0 to 9999 for a named
    -- channel: the call returns, it answers whether
    -- the time is newer than the channel's, and the channel's time is the later of the two; no other
    -- channel's time changes.
    pub record_activity-later :
        (s : State) (channel candidate : Bytes) (t : Time)
        → is_blank channel ≡ false
        → is_blank candidate ≡ false
        → clock.parse candidate ≡ some t
        → first_time ≤ t
        → t < last_time
        → (u : State) × (recorded : Bool) × (record_activity clock s channel candidate
            ≡ some (u, recorded))
          × (recorded ≡ is_newer (last_seen s channel) t)
          × (last_seen u channel ≡ some (later_of (last_seen s channel) t))
          × ((k : Bytes) → k ≢ channel → index u.activity k ≡ index s.activity k)
    record_activity-later s channel candidate t h k p lo hi =
        elim (Bool-cases (is_newer (last_seen s channel) t)) [
          | inl e ↦ (
            recorded s channel t,
            true,
            record_time_lem s channel candidate t h k p ∙ record_newer s channel t e,
            sym e,
            last_seen-recorded s channel t lo hi ∙ ap some (newer (last_seen s channel) t e),
            λ j ne. unfold recorded in index-put_ne s.activity channel j (clock.format t) ne,
          )
          | inr e ↦ (
            unchanged s,
            false,
            record_time_lem s channel candidate t h k p ∙ record_older s channel t e,
            sym e,
            last_seen-unchanged s channel ∙ older (last_seen s channel) t e,
            λ j _. unfold unchanged in index-ensure s.activity j,
          )
        ]
