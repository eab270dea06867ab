-- ===== src/State/Load.antt =====
-- `LoadState` of state/state.go: what is read from `state.json` is completed and cleaned.
pub mod Normal
pub mod Fresh
use uni_chat_sdk.Prelude.{
  ℕ, Bytes, Bool, not, ◌||◌, Option, none, some, [], ◌∷◌, ltb, if◌then◌else◌,
}
use uni_chat_sdk.Prelude.GoMap.{GoMap, Table, empty, nil, remove, ensure, range}
use uni_chat_sdk.Protocol.Types.{CheckItem}
use uni_chat_sdk.State.Defs.{State, valid_pending, is_blank}

-- What `os.ReadFile` gives.
pub data FileRead : Type 0 where
  missing : FileRead
  failed : Bytes → FileRead
  contents : Bytes → FileRead

abbrev pub initial_state : State
initial_state = record {
  cursors = empty;
  cursor_versions = empty;
  cursor_successors = empty;
  activity = empty;
  watch = [];
  pending = empty;
  revision = 0;
  pending_revision = empty;
  pending_resolved_at = empty;
  last_check = [];
}

unfoldable pub ensure_maps : State → State
ensure_maps s = record s {
  cursors = ensure s.cursors;
  cursor_versions = ensure s.cursor_versions;
  cursor_successors = ensure s.cursor_successors;
  activity = ensure s.activity;
  pending = ensure s.pending;
  pending_revision = ensure s.pending_revision;
  pending_resolved_at = ensure s.pending_resolved_at;
}

-- for _, revision := range s.PendingRevision
unfoldable pub raise_revision : ℕ → Table ℕ → ℕ
raise_revision r [] = r
raise_revision r ((k, stamp) ∷ t) = raise_revision (if ltb r stamp then stamp else r) t

unfoldable pub is_stray : Bytes → CheckItem → Bool
is_stray channel item = not (valid_pending item) || is_blank channel

-- for channelID, item := range s.Pending
unfoldable pub drop_strays : GoMap CheckItem → Table CheckItem → GoMap CheckItem
drop_strays m [] = m
drop_strays m ((channel, item) ∷ t) =
    drop_strays (if is_stray channel item then remove m channel else m) t

unfoldable pub normalize : State → State
unfolding ensure_maps
normalize decoded =
    let s = ensure_maps decoded in
    record s {
      revision = raise_revision s.revision (range s.pending_revision);
      pending = drop_strays s.pending (range s.pending);
    }

-- `decode b s` is `json.Unmarshal` into `s`: the state that it leaves, and its error.
module _ (decode : Bytes → State → State × Option Bytes) where
  unfoldable pub finish_load : State × Option Bytes → State × Option Bytes
  finish_load (s, some error) = (s, some error)
  finish_load (s, none) = (normalize s, none)

  unfoldable pub load_state : FileRead → State × Option Bytes
  unfolding finish_load
  load_state missing = (initial_state, none)
  load_state (failed error) = (initial_state, some error)
  load_state (contents b) = finish_load (decode b initial_state)
