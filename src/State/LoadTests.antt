-- ===== src/State/LoadTests.antt =====
-- Runs of LoadState and RecordActivity of state/state.go on small files and states.
use uni_chat_sdk.Prelude.{
  ◌+◌, Bytes, text, ◌≡◌, ◌≢◌, refl, Bool, true, false, Option, none, some, [], ◌∷◌, arith, ◌==◌,
  trim_space,
}
use uni_chat_sdk.Prelude.GoMap.{made, index}
use uni_chat_sdk.Prelude.Time.{number_clock, number_clock-IsRfc3339, zero_time}
use uni_chat_sdk.State.Defs.{State, is_blank}
use uni_chat_sdk.State.Load.{contents, initial_state, load_state}
use uni_chat_sdk.State.Load.Normal.{IsNormal, load_state-IsNormal}
use uni_chat_sdk.State.Activity.{record_activity}
use uni_chat_sdk.State.Activity.Newest.{last_seen, later_of, is_newer, record_activity-later}
use uni_chat_sdk.State.File.{Disk, Calls}
use uni_chat_sdk.State.Store.{save_state, reload}
use uni_chat_sdk.State.Store.Reload.{newest}
use uni_chat_sdk.State.Store.Persist.{state_valid, save_state-load}
use uni_chat_sdk.State.Tags.{state_struct, IsText, encode_state, decode_state}
use uni_chat_sdk.Json.Values.{Value}
use uni_chat_sdk.Json.Folding.{is_utf8, to_utf8}
use uni_chat_sdk.Json.Fields.{field_valid}
use uni_chat_sdk.Json.Nested.{items_valid}
use uni_chat_sdk.Json.Maps.{map_valid, is_listed, is_below}
use uni_chat_sdk.Json.Structs.{encode_struct}
use uni_chat_sdk.Protocol.Messages.Items.{check_item_struct, reaction_detail_struct}
use uni_chat_sdk.State.Tests.{town, post, request}

-- A decoder of files that reads one state, with an item that names no post.
abbrev stray_state : State
stray_state = record initial_state {
  pending = made ((town, request) ∷ (text "city", post false true [] (7 ∷ [])) ∷ []);
  revision = 4;
  pending_revision = made ((town, 6) ∷ []);
}

abbrev decode_stray : Bytes → State → State × Option Bytes
decode_stray b s = (stray_state, none)

load_state-IsNormal_example :
    (t : State) × (load_state decode_stray (contents (text "{}")) ≡ (t, none))
    × IsNormal stray_state t
load_state-IsNormal_example = load_state-IsNormal decode_stray (text "{}") stray_state refl

abbrev loaded_state : State
loaded_state = record initial_state {
  pending = made ((town, request) ∷ []);
  revision = 6;
  pending_revision = made ((town, 6) ∷ []);
}

abbrev active_state : State
active_state = record initial_state { activity = made ((town, zero_time ∷ []) ∷ []) }

town-named : is_blank town ≡ false
unfolding is_blank trim_space ◌==◌
town-named = refl

time-named : is_blank ((zero_time + 9) ∷ []) ≡ false
unfolding is_blank trim_space ◌==◌
time-named = refl

record_activity-later_example :
    (u : State) × (recorded : Bool) × (record_activity number_clock active_state town
        ((zero_time + 9) ∷ [])
      ≡ some (u, recorded))
    × (recorded ≡ is_newer number_clock (last_seen number_clock active_state town) (zero_time + 9))
    × (last_seen number_clock u town
        ≡ some (later_of number_clock (last_seen number_clock active_state town) (zero_time + 9)))
    × ((k : Bytes) → k ≢ town → index u.activity k ≡ index active_state.activity k)
unfolding number_clock
record_activity-later_example =
    record_activity-later number_clock number_clock-IsRfc3339 active_state town
      ((zero_time + 9) ∷ []) (zero_time + 9) town-named time-named refl (omega arith) (omega arith)

-- Each call of the write succeeds.
abbrev good_calls : Calls
good_calls = record {
  mkdir = none;
  chmod_dir = none;
  marshal = ([], none);
  create = none;
  tmp = text "state.json.7.tmp";
  tmp_mode = 384;
  chmod_tmp = none;
  write = none;
  written = 0;
  close = none;
  rename = none;
  remove = none;
}

abbrev empty_disk : Disk
empty_disk = record { dir_mode = none; files = λ p. none }

abbrev print_any : Value → Bytes
print_any v = text "{}"

-- A parser that finds the one value.
abbrev parse_loaded : Bytes → Option Value
parse_loaded b = encode_struct state_struct loaded_state

loaded_state-IsText : IsText print_any parse_loaded loaded_state
unfolding IsText
loaded_state-IsText v h = h

loaded_state-valid : state_valid loaded_state ≡ true
unfolding state_valid state_struct check_item_struct reaction_detail_struct field_valid map_valid
    is_listed is_below items_valid is_utf8 to_utf8 ◌==◌
loaded_state-valid = refl

save_state-load_example :
    let r =
      save_state
        (text "state.json")
        (encode_state print_any parse_loaded)
        good_calls
        loaded_state
        empty_disk in
    let load = reload (text "state.json") (decode_state print_any parse_loaded) in
    (r.1 ≡ none
      → (t : State) × (load (newest empty_disk r.0) ≡ (t, none)) × IsNormal loaded_state t)
    × ((e : Bytes) → r.1 ≡ some e → load (newest empty_disk r.0) ≡ load empty_disk)
unfolding ◌==◌
save_state-load_example =
    save_state-load print_any parse_loaded (text "state.json") good_calls loaded_state empty_disk
      refl loaded_state-IsText loaded_state-valid
