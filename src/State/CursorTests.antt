-- ===== src/State/CursorTests.antt =====
-- Runs of the cursor operations of state/state.go on small states.
use uni_chat_sdk.Prelude.{
  Bytes, text, ◌≡◌, refl, Bool, true, some, List, [], ◌∷◌, arith, ◌==◌, trim_space,
}
use uni_chat_sdk.Prelude.GoMap.{index, lookup}
use uni_chat_sdk.State.Defs.{State, is_blank}
use uni_chat_sdk.State.Cursor.{record_cursor, advance_cursor}
use uni_chat_sdk.State.Cursor.Chart.{successor, version}
use uni_chat_sdk.State.Cursor.Contract.{
  accepts, Recorded, record_cursor-Recorded, IsChart, record_cursor-IsChart,
}
use uni_chat_sdk.State.Cursor.Advance.{
  cursor, Advanced, advance_cursor-Advanced, advance_cursor-record_cursor,
}
use uni_chat_sdk.State.Cursor.Runs.{Call, observe, ack, run, Chain, run-Chain}
use uni_chat_sdk.State.Load.{initial_state}
use uni_chat_sdk.State.Tests.{town}

abbrev first : Bytes
first = text "c1"

initial_state-accepts : accepts initial_state town [] first ≡ true
unfolding accepts successor version index lookup is_blank trim_space ◌==◌
initial_state-accepts = refl

initial_state-IsChart : IsChart initial_state
unfolding successor version index lookup
initial_state-IsChart = record {
  linked = λ j b c h. ground (arith, h);
  known = λ j b c h. ground (arith, h);
  unique = λ j a b c h k. ground (arith, h);
}

record_cursor-Recorded_example :
    (t : State) × (accepted : Bool) × (record_cursor initial_state town [] first
      ≡ some (t, accepted))
    × Recorded initial_state town [] first t accepted
record_cursor-Recorded_example = record_cursor-Recorded initial_state town [] first

record_cursor-IsChart_example :
    (t : State) × (accepted : Bool) × (record_cursor initial_state town [] first
      ≡ some (t, accepted))
    × IsChart t
record_cursor-IsChart_example =
    record_cursor-IsChart initial_state town [] first initial_state-IsChart

advance_cursor-Advanced_example :
    (t : State) × (accepted : Bool) × (advance_cursor initial_state town first ≡ some (t, accepted))
    × Advanced initial_state town first t accepted
advance_cursor-Advanced_example = advance_cursor-Advanced initial_state town first

advance_cursor-record_cursor_example :
    (t : State) × (u : State) × (record_cursor initial_state town (cursor initial_state town) first
      ≡ some (t, true))
    × (advance_cursor t town first ≡ some (u, true))
    × (cursor u town ≡ first)
unfolding index lookup
advance_cursor-record_cursor_example =
    advance_cursor-record_cursor initial_state town first initial_state-accepts

abbrev calls : List Call
calls = observe town [] first ∷ ack town first ∷ ack town (text "c2") ∷ []

run-Chain_example :
    (u : State) × (run initial_state calls ≡ some u)
    × IsChart u
    × ((j x c : Bytes) → successor initial_state j x ≡ some c → successor u j x ≡ some c)
    × ((j : Bytes) → Chain u j (cursor initial_state j) (cursor u j))
run-Chain_example = run-Chain initial_state calls initial_state-IsChart
