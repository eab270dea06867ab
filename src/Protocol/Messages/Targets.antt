-- ===== src/Protocol/Messages/Targets.antt =====
-- The messages of pkg/protocol/protocol.go for the posts that a deletion would take.
use uni_chat_sdk.Prelude.{Bool, Bytes, List, refl, text, ◌==◌}
use uni_chat_sdk.Prelude.Ints.{ℤ}
use uni_chat_sdk.Json.Folding.{fold_key}
use uni_chat_sdk.Json.Fields.{end, has_key, is_fresh, optional, required, well_formed, ◌⨾◌}
use uni_chat_sdk.Json.Structs.{Struct, struct_codec, struct_of}
use uni_chat_sdk.Json.Codecs.{bool_codec, int_codec, text_codec}
use uni_chat_sdk.Json.Nested.{slice_codec}

pub record DeleteTarget : Type 0 where
  pub post_id : Bytes
  pub channel_id : Bytes
  pub author_id : Bytes
  pub own : Bool
  pub root_id : Bytes
  pub created_at : ℤ

unfoldable pub delete_target_struct : Struct DeleteTarget
unfolding well_formed is_fresh has_key fold_key ◌==◌
delete_target_struct =
    struct_of
      (required (text "post_id") (λ t. t.post_id) text_codec
        ⨾ required (text "channel_id") (λ t. t.channel_id) text_codec
        ⨾ required (text "author_id") (λ t. t.author_id) text_codec
        ⨾ required (text "own") (λ t. t.own) bool_codec
        ⨾ optional (text "root_id") (λ t. t.root_id) text_codec
        ⨾ required (text "created_at") (λ t. t.created_at) int_codec
        ⨾ end)
      (λ post_id channel_id author_id own root_id created_at. record {
        post_id = post_id;
        channel_id = channel_id;
        author_id = author_id;
        own = own;
        root_id = root_id;
        created_at = created_at;
      })
      refl (λ t. refl)

pub record DeleteRangeChunkData : Type 0 where
  pub channel_id : Bytes
  pub requested : ℤ
  pub effective : ℤ
  pub skipped_roots : ℤ
  pub protected_roots : ℤ
  pub include_thread_roots : Bool
  pub targets : List DeleteTarget
  pub next_cursor : Bytes
  pub complete : Bool
  pub requires_elevated_auth : Bool
  pub snapshot : Bytes

unfoldable pub delete_range_chunk_data_struct : Struct DeleteRangeChunkData
unfolding well_formed is_fresh has_key fold_key ◌==◌
delete_range_chunk_data_struct =
    struct_of
      (required (text "channel_id") (λ t. t.channel_id) text_codec
        ⨾ required (text "requested") (λ t. t.requested) int_codec
        ⨾ required (text "effective") (λ t. t.effective) int_codec
        ⨾ required (text "skipped_roots") (λ t. t.skipped_roots) int_codec
        ⨾ required (text "protected_roots") (λ t. t.protected_roots) int_codec
        ⨾ required (text "include_thread_roots") (λ t. t.include_thread_roots) bool_codec
        ⨾ required (text "targets") (λ t. t.targets)
            (slice_codec (struct_codec delete_target_struct))
        ⨾ optional (text "next_cursor") (λ t. t.next_cursor) text_codec
        ⨾ required (text "complete") (λ t. t.complete) bool_codec
        ⨾ required (text "requires_elevated_auth") (λ t. t.requires_elevated_auth) bool_codec
        ⨾ required (text "snapshot") (λ t. t.snapshot) text_codec
        ⨾ end)
      (λ channel_id requested effective skipped_roots protected_roots include_thread_roots targets
          next_cursor complete requires_elevated_auth snapshot.
        record {
          channel_id = channel_id;
          requested = requested;
          effective = effective;
          skipped_roots = skipped_roots;
          protected_roots = protected_roots;
          include_thread_roots = include_thread_roots;
          targets = targets;
          next_cursor = next_cursor;
          complete = complete;
          requires_elevated_auth = requires_elevated_auth;
          snapshot = snapshot;
        })
      refl (λ t. refl)

pub record DeletePreviewData : Type 0 where
  pub channel_id : Bytes
  pub channel_key : Bytes
  pub requested : ℤ
  pub min_timestamp : ℤ
  pub max_timestamp : ℤ
  pub min_post_id : Bytes
  pub max_post_id : Bytes
  pub targets : List DeleteTarget
  pub requires_elevated_auth : Bool
  pub skipped_root_ids : List Bytes
  pub snapshot : Bytes

unfoldable pub delete_preview_data_struct : Struct DeletePreviewData
unfolding well_formed is_fresh has_key fold_key ◌==◌
delete_preview_data_struct =
    struct_of
      (required (text "channel_id") (λ t. t.channel_id) text_codec
        ⨾ optional (text "channel_key") (λ t. t.channel_key) text_codec
        ⨾ required (text "requested") (λ t. t.requested) int_codec
        ⨾ optional (text "min_timestamp") (λ t. t.min_timestamp) int_codec
        ⨾ optional (text "max_timestamp") (λ t. t.max_timestamp) int_codec
        ⨾ optional (text "min_post_id") (λ t. t.min_post_id) text_codec
        ⨾ optional (text "max_post_id") (λ t. t.max_post_id) text_codec
        ⨾ required (text "targets") (λ t. t.targets)
            (slice_codec (struct_codec delete_target_struct))
        ⨾ required (text "requires_elevated_auth") (λ t. t.requires_elevated_auth) bool_codec
        ⨾ optional (text "skipped_root_ids") (λ t. t.skipped_root_ids) (slice_codec text_codec)
        ⨾ required (text "snapshot") (λ t. t.snapshot) text_codec
        ⨾ end)
      (λ channel_id channel_key requested min_timestamp max_timestamp min_post_id max_post_id
          targets requires_elevated_auth skipped_root_ids snapshot.
        record {
          channel_id = channel_id;
          channel_key = channel_key;
          requested = requested;
          min_timestamp = min_timestamp;
          max_timestamp = max_timestamp;
          min_post_id = min_post_id;
          max_post_id = max_post_id;
          targets = targets;
          requires_elevated_auth = requires_elevated_auth;
          skipped_root_ids = skipped_root_ids;
          snapshot = snapshot;
        })
      refl (λ t. refl)
