-- ===== src/State/MergeTests.antt =====
-- Runs of state/state.go's MergePending and writeJSON on small inputs.
use uni_chat_sdk.Prelude.{ℕ, ◌+◌, Bytes, text, ◌≡◌, refl, false, none, some, List, [], ◌∷◌, ◌==◌}
use uni_chat_sdk.Prelude.Time.{Time, number_clock, number_clock-IsRfc3339}
use mathlib.Core.List.{Perm, Sublistᴰ, filter}
use uni_chat_sdk.Protocol.Types.{CheckItem}
use uni_chat_sdk.State.Defs.{State}
use uni_chat_sdk.State.Pending.Effects.{IsProjection}
use uni_chat_sdk.State.Merge.{merge_pending}
use uni_chat_sdk.State.Merge.Contract.{arranged, watch?, merge_pending-Accepts}
use uni_chat_sdk.State.Merge.Twice.{merge_pending-again}
use uni_chat_sdk.State.Tests.{
  post, request, later_request, waiting_state, waiting_state-IsProjection,
}
use uni_chat_sdk.State.File.{Disk, private_file, Calls, write_json}
use uni_chat_sdk.State.File.Atomic.{IsAtomic, write_json-IsAtomic}

abbrev watched : CheckItem
watched = post false false (text "p5") (8 ∷ [])

abbrev events : List CheckItem
events = later_request ∷ watched ∷ request ∷ []

abbrev clock_at : ℕ → ℕ → Time
clock_at start calls = start + calls

merge_pending-Accepts_example :
    (t : State) × (accepted : List CheckItem) × (merge_pending number_clock
        (clock_at 3)
        waiting_state
        events
      ≡ some (t, accepted))
    × IsProjection t
    × Sublistᴰ accepted (arranged number_clock events)
    × Perm (arranged number_clock events) events
    × (filter watch? accepted ≡ filter watch? (arranged number_clock events))
merge_pending-Accepts_example =
    merge_pending-Accepts number_clock (clock_at 3) waiting_state events waiting_state-IsProjection

merge_pending-again_example :
    (t : State) × (accepted : List CheckItem) × (u : State) × (merge_pending number_clock
        (clock_at 3)
        waiting_state
        events
      ≡ some (t, accepted))
    × (merge_pending number_clock (clock_at 9) t events
        ≡ some (u, filter watch? (arranged number_clock events)))
merge_pending-again_example =
    merge_pending-again number_clock number_clock-IsRfc3339 (clock_at 3) (clock_at 9) waiting_state
      events

abbrev full_disk : Calls
full_disk = record {
  mkdir = none;
  chmod_dir = none;
  marshal = (text "{}", none);
  create = none;
  tmp = text "state.json.7.tmp";
  tmp_mode = private_file;
  chmod_tmp = none;
  write = some (text "no space");
  written = 1;
  close = none;
  rename = none;
  remove = none;
}

abbrev state_path : Bytes
state_path = text "state.json"

abbrev old_disk : Disk
old_disk = record {
  dir_mode = none;
  files = λ p. some (record { mode = private_file; content = text "old" });
}

write_json-IsAtomic_example :
    IsAtomic state_path
      (old_disk.files state_path)
      (some (record { mode = private_file; content = full_disk.marshal.0 }))
      (write_json full_disk state_path old_disk)
unfolding ◌==◌
write_json-IsAtomic_example = write_json-IsAtomic full_disk state_path old_disk refl
