-- ===== src/Protocol/Messages/Jobs.antt =====
-- The messages of pkg/protocol/protocol.go for jobs of deletions.
use uni_chat_sdk.Prelude.{Bool, Bytes, List, refl, text, ◌==◌}
use uni_chat_sdk.Prelude.Ints.{ℤ}
use uni_chat_sdk.Prelude.Time.{IsRfc3339, Rfc3339, Time}
use uni_chat_sdk.Json.Folding.{fold_key}
use uni_chat_sdk.Json.Fields.{end, has_key, is_fresh, optional, required, well_formed, ◌⨾◌}
use uni_chat_sdk.Json.Structs.{Struct, struct_codec, struct_of}
use uni_chat_sdk.Json.Codecs.{bool_codec, int_codec, text_codec}
use uni_chat_sdk.Json.Nested.{slice_codec, time_codec}
use uni_chat_sdk.Protocol.Messages.Batches.{DeleteBatchError, delete_batch_error_struct}

pub record DeleteJobScope : Type 0 where
  pub engine : Bytes
  pub channel : Bytes
  pub resolved_channel_id : Bytes
  pub from : Time
  pub to : Time
  pub batch_size : ℤ
  pub include_thread_roots : Bool

unfoldable pub delete_job_scope_struct :
    (clock : Rfc3339) (clock_ok : IsRfc3339 clock) → Struct DeleteJobScope
unfolding well_formed is_fresh has_key fold_key ◌==◌
delete_job_scope_struct clock clock_ok =
    struct_of
      (required (text "engine") (λ t. t.engine) text_codec
        ⨾ required (text "channel") (λ t. t.channel) text_codec
        ⨾ optional (text "resolved_channel_id") (λ t. t.resolved_channel_id) text_codec
        ⨾ required (text "from") (λ t. t.from) (time_codec clock clock_ok)
        ⨾ required (text "to") (λ t. t.to) (time_codec clock clock_ok)
        ⨾ required (text "batch_size") (λ t. t.batch_size) int_codec
        ⨾ optional (text "include_thread_roots") (λ t. t.include_thread_roots) bool_codec
        ⨾ end)
      (λ engine channel resolved_channel_id from to batch_size include_thread_roots. record {
        engine = engine;
        channel = channel;
        resolved_channel_id = resolved_channel_id;
        from = from;
        to = to;
        batch_size = batch_size;
        include_thread_roots = include_thread_roots;
      })
      refl (λ t. refl)

pub record DeleteJobStartArgs : Type 0 where
  pub scope : DeleteJobScope
  pub request_id : Bytes

unfoldable pub delete_job_start_args_struct :
    (clock : Rfc3339) (clock_ok : IsRfc3339 clock) → Struct DeleteJobStartArgs
unfolding well_formed is_fresh has_key fold_key ◌==◌
delete_job_start_args_struct clock clock_ok =
    struct_of
      (required (text "scope") (λ t. t.scope)
          (struct_codec (delete_job_scope_struct clock clock_ok))
        ⨾ required (text "request_id") (λ t. t.request_id) text_codec
        ⨾ end)
      (λ scope request_id. record { scope = scope; request_id = request_id }) refl (λ t. refl)

pub record DeleteJobStatus : Type 0 where
  pub job_id : Bytes
  pub state : Bytes
  pub scope : DeleteJobScope
  pub requested : ℤ
  pub effective : ℤ
  pub deleted : ℤ
  pub skipped : ℤ
  pub protected : ℤ
  pub errors : List DeleteBatchError
  pub remaining : ℤ
  pub created_at : Time
  pub updated_at : Time
  pub lease_until : Time
  pub last_error : Bytes

unfoldable pub delete_job_status_struct :
    (clock : Rfc3339) (clock_ok : IsRfc3339 clock) → Struct DeleteJobStatus
unfolding well_formed is_fresh has_key fold_key ◌==◌
delete_job_status_struct clock clock_ok =
    struct_of
      (required (text "job_id") (λ t. t.job_id) text_codec
        ⨾ required (text "state") (λ t. t.state) text_codec
        ⨾ required (text "scope") (λ t. t.scope)
            (struct_codec (delete_job_scope_struct clock clock_ok))
        ⨾ required (text "requested") (λ t. t.requested) int_codec
        ⨾ required (text "effective") (λ t. t.effective) int_codec
        ⨾ required (text "deleted") (λ t. t.deleted) int_codec
        ⨾ required (text "skipped") (λ t. t.skipped) int_codec
        ⨾ required (text "protected") (λ t. t.protected) int_codec
        ⨾ optional (text "errors") (λ t. t.errors)
            (slice_codec (struct_codec delete_batch_error_struct))
        ⨾ required (text "remaining") (λ t. t.remaining) int_codec
        ⨾ required (text "created_at") (λ t. t.created_at) (time_codec clock clock_ok)
        ⨾ required (text "updated_at") (λ t. t.updated_at) (time_codec clock clock_ok)
        ⨾ required (text "lease_until") (λ t. t.lease_until) (time_codec clock clock_ok)
        ⨾ optional (text "last_error") (λ t. t.last_error) text_codec
        ⨾ end)
      (λ job_id state scope requested effective deleted skipped protected errors remaining
          created_at updated_at lease_until last_error.
        record {
          job_id = job_id;
          state = state;
          scope = scope;
          requested = requested;
          effective = effective;
          deleted = deleted;
          skipped = skipped;
          protected = protected;
          errors = errors;
          remaining = remaining;
          created_at = created_at;
          updated_at = updated_at;
          lease_until = lease_until;
          last_error = last_error;
        })
      refl (λ t. refl)

pub record DeleteJobStartData : Type 0 where
  pub job_id : Bytes
  pub state : Bytes
  pub status : DeleteJobStatus
  pub reused : Bool

unfoldable pub delete_job_start_data_struct :
    (clock : Rfc3339) (clock_ok : IsRfc3339 clock) → Struct DeleteJobStartData
unfolding well_formed is_fresh has_key fold_key ◌==◌
delete_job_start_data_struct clock clock_ok =
    struct_of
      (required (text "job_id") (λ t. t.job_id) text_codec
        ⨾ required (text "state") (λ t. t.state) text_codec
        ⨾ required (text "status") (λ t. t.status)
            (struct_codec (delete_job_status_struct clock clock_ok))
        ⨾ optional (text "reused") (λ t. t.reused) bool_codec
        ⨾ end)
      (λ job_id state status reused. record {
        job_id = job_id;
        state = state;
        status = status;
        reused = reused;
      })
      refl (λ t. refl)

pub record DeleteJobIdArgs : Type 0 where
  pub job_id : Bytes

unfoldable pub delete_job_id_args_struct : Struct DeleteJobIdArgs
unfolding well_formed is_fresh has_key fold_key ◌==◌
delete_job_id_args_struct =
    struct_of (required (text "job_id") (λ t. t.job_id) text_codec ⨾ end)
      (λ job_id. record { job_id = job_id }) refl (λ t. refl)
