-- ===== src/State/Pending/Unparsed.antt =====
-- What an own post with a creation time that does not parse does to `ApplyPending` of state/state.go.
use uni_chat_sdk.Prelude.Time.{Time}
use uni_chat_sdk.State.Defs.{State}
