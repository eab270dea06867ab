-- ===== src/Protocol/Deletion.antt =====
-- The deletion payloads of pkg/protocol/protocol.go, which share one wire struct.
pub mod Codec
use uni_chat_sdk.Prelude.{
  Bytes, text, ◌==◌, Bool, true, false, ◌||◌, Option, none, some, List, [], ◌>>=◌, ◌≡◌, refl,
}
use uni_chat_sdk.Prelude.Time.{Time, Rfc3339, IsRfc3339}
use uni_chat_sdk.Json.Values.{Value}
use uni_chat_sdk.Json.Folding.{fold_key}
use uni_chat_sdk.Json.Fields.{required, optional, ◌⨾◌, end, well_formed, is_fresh, has_key}
use uni_chat_sdk.Json.Structs.{Struct, struct_of, encode_struct, decode_struct}
use uni_chat_sdk.Json.Codecs.{text_codec, bool_codec}
use uni_chat_sdk.Json.Nested.{pointer_codec, slice_codec, time_codec}
use uni_chat_sdk.Protocol.Wire.{optional_time, time_or_zero}

pub record DeletePreviewArgs : Type 0 where
  pub channel_id : Bytes
  pub channel : Bytes
  pub engine : Bytes
  pub post_ids : List Bytes
  pub from : Time
  pub to : Time
  pub include_thread_roots : Bool
  pub want_channel_key : Bool

pub record DeleteBatchArgs : Type 0 where
  pub channel_id : Bytes
  pub engine : Bytes
  pub post_ids : List Bytes
  pub from : Time
  pub to : Time
  pub snapshot : Bytes
  pub include_thread_roots : Bool
  pub protected_root_ids : List Bytes
  pub range_chunk : Bool

-- A nil slice of ids and an empty one are both `[]`.
pub record DeleteArgsWire : Type 0 where
  pub channel_id : Bytes
  pub channel : Bytes
  pub engine : Bytes
  pub post_ids : List Bytes
  pub from : Option Time
  pub to : Option Time
  pub snapshot : Bytes
  pub include_thread_roots : Bool
  pub protected_root_ids : List Bytes
  pub range_chunk : Bool
  pub want_channel_key : Bool

unfoldable pub preview_wire : DeletePreviewArgs → DeleteArgsWire
preview_wire a = record {
  channel_id = a.channel_id;
  channel = a.channel;
  engine = a.engine;
  post_ids = a.post_ids;
  from = optional_time a.from;
  to = optional_time a.to;
  snapshot = [];
  include_thread_roots = a.include_thread_roots;
  protected_root_ids = [];
  range_chunk = false;
  want_channel_key = a.want_channel_key;
}

-- Every field of the receiver is assigned.
unfoldable pub preview_args : DeleteArgsWire → DeletePreviewArgs
preview_args w = record {
  channel_id = w.channel_id;
  channel = w.channel;
  engine = w.engine;
  post_ids = w.post_ids;
  from = time_or_zero w.from;
  to = time_or_zero w.to;
  include_thread_roots = w.include_thread_roots;
  want_channel_key = w.want_channel_key;
}

unfoldable pub batch_wire : DeleteBatchArgs → DeleteArgsWire
batch_wire a = record {
  channel_id = a.channel_id;
  channel = [];
  engine = a.engine;
  post_ids = a.post_ids;
  from = optional_time a.from;
  to = optional_time a.to;
  snapshot = a.snapshot;
  include_thread_roots = a.include_thread_roots;
  protected_root_ids = a.protected_root_ids;
  range_chunk = a.range_chunk;
  want_channel_key = false;
}

unfoldable pub batch_args : DeleteArgsWire → DeleteBatchArgs
batch_args w = record {
  channel_id = w.channel_id;
  engine = w.engine;
  post_ids = w.post_ids;
  from = time_or_zero w.from;
  to = time_or_zero w.to;
  snapshot = w.snapshot;
  include_thread_roots = w.include_thread_roots;
  protected_root_ids = w.protected_root_ids;
  range_chunk = w.range_chunk;
}

module _ (clock : Rfc3339) (clock_ok : IsRfc3339 clock) where
  unfoldable pub delete_args_wire_struct : Struct DeleteArgsWire
  unfolding well_formed is_fresh has_key fold_key ◌==◌
  delete_args_wire_struct =
      struct_of
        (optional (text "channel_id") (λ t. t.channel_id) text_codec
          ⨾ optional (text "channel") (λ t. t.channel) text_codec
          ⨾ optional (text "engine") (λ t. t.engine) text_codec
          ⨾ required (text "post_ids") (λ t. t.post_ids) (slice_codec text_codec)
          ⨾ optional (text "from") (λ t. t.from) (pointer_codec (time_codec clock clock_ok))
          ⨾ optional (text "to") (λ t. t.to) (pointer_codec (time_codec clock clock_ok))
          ⨾ optional (text "snapshot") (λ t. t.snapshot) text_codec
          ⨾ optional (text "include_thread_roots") (λ t. t.include_thread_roots) bool_codec
          ⨾ optional (text "protected_root_ids") (λ t. t.protected_root_ids)
              (slice_codec text_codec)
          ⨾ optional (text "range_chunk") (λ t. t.range_chunk) bool_codec
          ⨾ optional (text "want_channel_key") (λ t. t.want_channel_key) bool_codec
          ⨾ end)
        (λ channel_id channel engine post_ids from to snapshot include_thread_roots
            protected_root_ids range_chunk want_channel_key.
          record {
            channel_id = channel_id;
            channel = channel;
            engine = engine;
            post_ids = post_ids;
            from = from;
            to = to;
            snapshot = snapshot;
            include_thread_roots = include_thread_roots;
            protected_root_ids = protected_root_ids;
            range_chunk = range_chunk;
            want_channel_key = want_channel_key;
          })
        refl (λ t. refl)

  unfoldable pub marshal_preview : DeletePreviewArgs → Option Value
  marshal_preview a = encode_struct delete_args_wire_struct (preview_wire a)

  unfoldable pub unmarshal_preview : Value → Option DeletePreviewArgs
  unmarshal_preview v = decode_struct delete_args_wire_struct v >>= λ w. some (preview_args w)

  unfoldable pub marshal_batch : DeleteBatchArgs → Option Value
  marshal_batch a = encode_struct delete_args_wire_struct (batch_wire a)

  unfoldable pub unmarshal_batch : Value → Option DeleteBatchArgs
  unmarshal_batch v = decode_struct delete_args_wire_struct v >>= λ w. some (batch_args w)
