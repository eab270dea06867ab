-- ===== src/State/Store/Persist.antt =====
-- SaveState and then LoadState of state/state.go, through the tags of the state's JSON.
use uni_chat_sdk.Prelude.{Bytes, ◌≡◌, refl, ◌==◌, Bool, true, false, Option, none, some, arith}
use uni_chat_sdk.Json.Values.{Value}
use uni_chat_sdk.Json.Fields.{bind_some}
use uni_chat_sdk.Json.Structs.{encode_struct, decode_struct, decode_struct-encode_struct}
use uni_chat_sdk.State.Defs.{State}
use uni_chat_sdk.State.Tags.{state_struct, IsText, encode_state, decode_state}
use uni_chat_sdk.State.File.{Disk, Calls}
use uni_chat_sdk.State.Load.{initial_state}
use uni_chat_sdk.State.Load.Normal.{IsNormal}
use uni_chat_sdk.State.Store.{save_state, reload}
use uni_chat_sdk.State.Store.Reload.{Alike, newest, save_state-reload}

-- No map is nil, maps are listed by their keys, texts are UTF-8, and revisions and versions have 64 bits.
unfoldable pub state_valid : State → Bool
state_valid = state_struct.fields.are_valid

state-Alike : (s : State) → Alike s s
state-Alike s = record {
  cursors = λ k. refl;
  versions = λ k. refl;
  successors = λ k. refl;
  activity = λ k. refl;
  stamps = λ k. refl;
  resolved = λ k. refl;
  pending = λ k. refl;
  watch = refl;
  last_check = refl;
  revision = refl;
}

module _ (print : Value → Bytes) (parse : Bytes → Option Value) where
  decode-encode :
      (s t : State)
      → IsText print parse s
      → state_valid s ≡ true
      → decode_state print parse (encode_state print parse s).0 t ≡ (s, none)
  unfolding state_valid encode_state decode_state IsText
  decode-encode s t texts h =
      let (v, wrote, reads) =
        bind_some (encode_struct state_struct s) (decode_struct state_struct) s
          (decode_struct-encode_struct state_struct s h) in
      ground (arith, wrote, reads, texts v)

  -- If the state's text is parsed as what was printed: of a state whose texts are UTF-8, whose numbers have
  -- 64 bits, of whose maps none is nil, and with maps listed by their keys, a save that reports no error
  -- leaves a file whose load gives the state in normal form without an error; a save that reports one
  -- leaves a load what it was before. The temporary file has a path of its own.
  pub save_state-load :
      (path : Bytes) (c : Calls) (s : State) (d : Disk)
      → (c.tmp == path) ≡ false
      → IsText print parse s
      → state_valid s ≡ true
      → let r = save_state path (encode_state print parse) c s d in
        let load = reload path (decode_state print parse) in
        (r.1 ≡ none → (t : State) × (load (newest d r.0) ≡ (t, none)) × IsNormal s t)
        × ((e : Bytes) → r.1 ≡ some e → load (newest d r.0) ≡ load d)
  save_state-load path c s d own texts valid =
      save_state-reload path (decode_state print parse) (encode_state print parse) c s s d own
        (decode-encode s initial_state texts valid) (state-Alike s)
