-- ===== src/State/Tags.antt =====
-- The JSON tags of the State struct of state/state.go, read into the state that LoadState begins with.
use uni_chat_sdk.Prelude.{
  Bytes, text, ◌==◌, Bool, true, false, Option, none, some, [], ◌∷◌, ◌≡◌, refl,
}
use uni_chat_sdk.Prelude.GoMap.{GoMap, nil, made, empty}
use uni_chat_sdk.Json.Values.{Value}
use uni_chat_sdk.Json.Folding.{fold_key}
use uni_chat_sdk.Json.Codecs.{Codec, text_codec, u64_codec}
use uni_chat_sdk.Json.Nested.{slice_codec}
use uni_chat_sdk.Json.Maps.{map_codec}
use uni_chat_sdk.Json.Fields.{Field, required, optional, ◌⨾◌, end, well_formed, is_fresh, has_key}
use uni_chat_sdk.Json.Structs.{Struct, struct_of, struct_codec, encode_struct, decode_struct}
use uni_chat_sdk.Protocol.Messages.Items.{check_item_struct}
use uni_chat_sdk.State.Defs.{State}

abbrev pub is_made_empty : {V : Type 0} → GoMap V → Bool
is_made_empty nil = false
is_made_empty (made []) = true
is_made_empty (made (e ∷ t)) = false

pub is_made_empty_lem : {V : Type 0} (m : GoMap V) → is_made_empty m ≡ true → m ≡ empty
is_made_empty_lem nil h = absurd cc
is_made_empty_lem (made []) h = refl
is_made_empty_lem (made (e ∷ t)) h = absurd cc

-- A map that is made before the file is read: a missing key leaves it empty.
abbrev pub made_map :
    {V : Type 0} → Bytes → Bool → (State → GoMap V) → Codec V → Field State (GoMap V)
made_map k omit g c = record {
  key = k;
  omit_empty = omit;
  get = g;
  codec = map_codec c;
  base = empty;
  is_base = is_made_empty;
  base_lem = is_made_empty_lem;
}

unfoldable pub state_struct : Struct State
unfolding well_formed is_fresh has_key fold_key ◌==◌
state_struct =
    struct_of
      (made_map (text "cursors") false (λ s. s.cursors) text_codec
        ⨾ made_map (text "cursor_versions") true (λ s. s.cursor_versions) (map_codec u64_codec)
        ⨾ made_map (text "cursor_successors") true (λ s. s.cursor_successors) (map_codec text_codec)
        ⨾ made_map (text "activity") true (λ s. s.activity) text_codec
        ⨾ required (text "watch") (λ s. s.watch) (slice_codec text_codec)
        ⨾ made_map (text "pending") true (λ s. s.pending) (struct_codec check_item_struct)
        ⨾ optional (text "revision") (λ s. s.revision) u64_codec
        ⨾ made_map (text "pending_revision") true (λ s. s.pending_revision) u64_codec
        ⨾ made_map (text "pending_resolved_at") true (λ s. s.pending_resolved_at) text_codec
        ⨾ optional (text "last_check") (λ s. s.last_check) text_codec
        ⨾ end)
      (λ cursors cursor_versions cursor_successors activity watch pending revision pending_revision
          pending_resolved_at last_check.
        record {
          cursors = cursors;
          cursor_versions = cursor_versions;
          cursor_successors = cursor_successors;
          activity = activity;
          watch = watch;
          pending = pending;
          revision = revision;
          pending_revision = pending_revision;
          pending_resolved_at = pending_resolved_at;
          last_check = last_check;
        })
      refl (λ s. refl)

-- What the program relies on between JSON values and their texts: the indented text of the state is
-- parsed as its value. A text that is not JSON gives `none`.
unfoldable pub IsText : (Value → Bytes) → (Bytes → Option Value) → State → Type 0
IsText print parse s =
    (v : Value) → encode_struct state_struct s ≡ some v → parse (print v) ≡ some v

module _ (print : Value → Bytes) (parse : Bytes → Option Value) where
  -- json.MarshalIndent of a state
  unfoldable pub encode_state : State → Bytes × Option Bytes
  encode_state s = elim (encode_struct state_struct s) [
    | none ↦ ([], some (text "json: unsupported value"))
    | some v ↦ (print v, none)
  ]

  abbrev pub read_or : State → Option State → State × Option Bytes
  read_or s none = (s, some (text "json: cannot unmarshal"))
  read_or s (some t) = (t, none)

  -- json.Unmarshal into the state with which LoadState begins. (An error leaves in it what was read
  -- before, which is not modelled.)
  unfoldable pub decode_state : Bytes → State → State × Option Bytes
  decode_state b s = elim (parse b) [
    | none ↦ (s, some (text "invalid character"))
    | some v ↦ read_or s (decode_struct state_struct v)
  ]
