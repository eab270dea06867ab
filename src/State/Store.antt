-- ===== src/State/Store.antt =====
-- state/state.go's SaveState, and LoadState of what is on the disk.
pub mod Reload
pub mod Persist
use uni_chat_sdk.Prelude.{Bytes, Option, none, some, List, [], ◌∷◌}
use uni_chat_sdk.State.Defs.{State}
use uni_chat_sdk.State.File.{Error, File, Disk, Calls, write_json}
use uni_chat_sdk.State.Load.{FileRead, missing, contents, load_state}

-- `path` is that of `state.json` in the directory; `encode` is json.MarshalIndent.
module _ (path : Bytes) where
  unfoldable pub save_state : (State → Bytes × Error) → Calls → State → Disk → List Disk × Error
  save_state encode c s d = write_json (record c { marshal = encode s }) path d

  -- os.ReadFile without an error of the disk.
  unfoldable pub read_file : Disk → FileRead
  read_file d = elim (d.files path) [ none ↦ missing | some f ↦ contents f.content ]

  unfoldable pub reload : (Bytes → State → State × Option Bytes) → Disk → State × Option Bytes
  reload decode d = load_state decode (read_file d)
