-- ===== src/State/Activity.antt =====
-- `RecordActivity` of state/state.go: the newest activity of each channel.
pub mod Newest
use uni_chat_sdk.Prelude.{
  ℕ, Bytes, ◌≡◌, ◌≤◌, ◌<◌, ◌==◌, ==_iff, ==_refl, Bool, true, false, not, ◌||◌, ◌&&◌, Option, none,
  some, [], ltb, if◌then◌else◌, ◌>>=◌, arith,
}
use uni_chat_sdk.Prelude.GoMap.{
  index, store, ensure, put, store-ensure, index-put, index-put_self, index-ensure,
}
use uni_chat_sdk.Prelude.Time.{Time, Rfc3339, IsRfc3339, first_time, last_time}
use uni_chat_sdk.State.Defs.{State, is_blank}
use uni_chat_sdk.State.Pending.{or_empty}

module _ (clock : Rfc3339) where
  -- current != "" && err == nil && !candidateTime.After(currentTime)
  unfoldable pub no_later : Bytes → Time → Bool
  no_later current candidate =
      if current == []
      then false
      else (elim (clock.parse current) [ none ↦ false | some t ↦ not (ltb t candidate) ])

  unfoldable pub record_time : State → Bytes → Time → Option (State × Bool)
  record_time s channel candidate =
      let made = record s { activity = ensure s.activity } in
      if no_later (or_empty (index made.activity channel)) candidate
      then some (made, false)
      else (store made.activity channel (clock.format candidate) >>= λ recorded.
          some (record made { activity = recorded }, true))

  -- `none` is a panic.
  unfoldable pub record_activity : State → Bytes → Bytes → Option (State × Bool)
  record_activity s channel candidate =
      if is_blank channel || is_blank candidate
      then some (s, false)
      else (elim (clock.parse candidate) [
        | none ↦ some (s, false)
        | some t ↦ record_time s channel t
      ])
