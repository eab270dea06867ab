-- ===== src/Protocol/Messages/Batches.antt =====
-- The messages of pkg/protocol/protocol.go for one batch of deletions.
use uni_chat_sdk.Prelude.{Bool, Bytes, List, refl, text, ◌==◌}
use uni_chat_sdk.Prelude.Ints.{ℤ}
use uni_chat_sdk.Json.Folding.{fold_key}
use uni_chat_sdk.Json.Fields.{end, has_key, is_fresh, optional, required, well_formed, ◌⨾◌}
use uni_chat_sdk.Json.Structs.{Struct, struct_codec, struct_of}
use uni_chat_sdk.Json.Codecs.{bool_codec, int_codec, text_codec}
use uni_chat_sdk.Json.Nested.{slice_codec}

pub record DeleteBatchError : Type 0 where
  pub post_id : Bytes
  pub error : Bytes

unfoldable pub delete_batch_error_struct : Struct DeleteBatchError
unfolding well_formed is_fresh has_key fold_key ◌==◌
delete_batch_error_struct =
    struct_of
      (required (text "post_id") (λ t. t.post_id) text_codec
        ⨾ required (text "error") (λ t. t.error) text_codec
        ⨾ end)
      (λ post_id error. record { post_id = post_id; error = error }) refl (λ t. refl)

pub record DeleteBatchData : Type 0 where
  pub requested : ℤ
  pub deleted : ℤ
  pub partial : Bool
  pub complete : Bool
  pub errors : List DeleteBatchError
  pub remaining : List Bytes
  pub thread_roots : List Bytes
  pub cascaded : List Bytes
  pub snapshot : Bytes

unfoldable pub delete_batch_data_struct : Struct DeleteBatchData
unfolding well_formed is_fresh has_key fold_key ◌==◌
delete_batch_data_struct =
    struct_of
      (required (text "requested") (λ t. t.requested) int_codec
        ⨾ required (text "deleted") (λ t. t.deleted) int_codec
        ⨾ required (text "partial") (λ t. t.partial) bool_codec
        ⨾ required (text "complete") (λ t. t.complete) bool_codec
        ⨾ optional (text "errors") (λ t. t.errors)
            (slice_codec (struct_codec delete_batch_error_struct))
        ⨾ optional (text "remaining") (λ t. t.remaining) (slice_codec text_codec)
        ⨾ optional (text "thread_roots") (λ t. t.thread_roots) (slice_codec text_codec)
        ⨾ optional (text "cascaded") (λ t. t.cascaded) (slice_codec text_codec)
        ⨾ required (text "snapshot") (λ t. t.snapshot) text_codec
        ⨾ end)
      (λ requested deleted partial complete errors remaining thread_roots cascaded snapshot.
        record {
          requested = requested;
          deleted = deleted;
          partial = partial;
          complete = complete;
          errors = errors;
          remaining = remaining;
          thread_roots = thread_roots;
          cascaded = cascaded;
          snapshot = snapshot;
        })
      refl (λ t. refl)
