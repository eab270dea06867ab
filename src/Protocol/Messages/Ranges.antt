-- ===== src/Protocol/Messages/Ranges.antt =====
-- The messages of pkg/protocol/protocol.go for deleting the posts of a range.
use uni_chat_sdk.Prelude.{Bool, Bytes, List, refl, text, ◌==◌}
use uni_chat_sdk.Prelude.Ints.{ℤ}
use uni_chat_sdk.Prelude.Time.{IsRfc3339, Rfc3339, Time}
use uni_chat_sdk.Json.Folding.{fold_key}
use uni_chat_sdk.Json.Fields.{end, has_key, is_fresh, optional, required, well_formed, ◌⨾◌}
use uni_chat_sdk.Json.Structs.{Struct, struct_of}
use uni_chat_sdk.Json.Codecs.{bool_codec, int_codec, text_codec}
use uni_chat_sdk.Json.Nested.{slice_codec, time_codec}

pub record DeleteRangeSummaryArgs : Type 0 where
  pub channel : Bytes
  pub from : Time
  pub to : Time
  pub include_thread_roots : Bool
  pub want_channel_key : Bool

unfoldable pub delete_range_summary_args_struct :
    (clock : Rfc3339) (clock_ok : IsRfc3339 clock) → Struct DeleteRangeSummaryArgs
unfolding well_formed is_fresh has_key fold_key ◌==◌
delete_range_summary_args_struct clock clock_ok =
    struct_of
      (required (text "channel") (λ t. t.channel) text_codec
        ⨾ required (text "from") (λ t. t.from) (time_codec clock clock_ok)
        ⨾ required (text "to") (λ t. t.to) (time_codec clock clock_ok)
        ⨾ optional (text "include_thread_roots") (λ t. t.include_thread_roots) bool_codec
        ⨾ optional (text "want_channel_key") (λ t. t.want_channel_key) bool_codec
        ⨾ end)
      (λ channel from to include_thread_roots want_channel_key. record {
        channel = channel;
        from = from;
        to = to;
        include_thread_roots = include_thread_roots;
        want_channel_key = want_channel_key;
      })
      refl (λ t. refl)

pub record DeleteRangeChunkArgs : Type 0 where
  pub channel : Bytes
  pub from : Time
  pub to : Time
  pub cursor : Bytes
  pub limit : ℤ
  pub include_thread_roots : Bool
  pub protected_root_ids : List Bytes

unfoldable pub delete_range_chunk_args_struct :
    (clock : Rfc3339) (clock_ok : IsRfc3339 clock) → Struct DeleteRangeChunkArgs
unfolding well_formed is_fresh has_key fold_key ◌==◌
delete_range_chunk_args_struct clock clock_ok =
    struct_of
      (required (text "channel") (λ t. t.channel) text_codec
        ⨾ required (text "from") (λ t. t.from) (time_codec clock clock_ok)
        ⨾ required (text "to") (λ t. t.to) (time_codec clock clock_ok)
        ⨾ optional (text "cursor") (λ t. t.cursor) text_codec
        ⨾ required (text "limit") (λ t. t.limit) int_codec
        ⨾ optional (text "include_thread_roots") (λ t. t.include_thread_roots) bool_codec
        ⨾ optional (text "protected_root_ids") (λ t. t.protected_root_ids) (slice_codec text_codec)
        ⨾ end)
      (λ channel from to cursor limit include_thread_roots protected_root_ids. record {
        channel = channel;
        from = from;
        to = to;
        cursor = cursor;
        limit = limit;
        include_thread_roots = include_thread_roots;
        protected_root_ids = protected_root_ids;
      })
      refl (λ t. refl)

pub record DeleteRangeSummaryData : Type 0 where
  pub channel_id : Bytes
  pub channel_key : Bytes
  pub team_id : Bytes
  pub requested : ℤ
  pub effective : ℤ
  pub skipped_roots : ℤ
  pub protected_roots : ℤ
  pub protected_root_ids : List Bytes
  pub include_thread_roots : Bool
  pub min_timestamp : ℤ
  pub max_timestamp : ℤ
  pub requires_elevated_auth : Bool

unfoldable pub delete_range_summary_data_struct : Struct DeleteRangeSummaryData
unfolding well_formed is_fresh has_key fold_key ◌==◌
delete_range_summary_data_struct =
    struct_of
      (required (text "channel_id") (λ t. t.channel_id) text_codec
        ⨾ optional (text "channel_key") (λ t. t.channel_key) text_codec
        ⨾ required (text "team_id") (λ t. t.team_id) text_codec
        ⨾ required (text "requested") (λ t. t.requested) int_codec
        ⨾ required (text "effective") (λ t. t.effective) int_codec
        ⨾ required (text "skipped_roots") (λ t. t.skipped_roots) int_codec
        ⨾ required (text "protected_roots") (λ t. t.protected_roots) int_codec
        ⨾ optional (text "protected_root_ids") (λ t. t.protected_root_ids) (slice_codec text_codec)
        ⨾ required (text "include_thread_roots") (λ t. t.include_thread_roots) bool_codec
        ⨾ optional (text "min_timestamp") (λ t. t.min_timestamp) int_codec
        ⨾ optional (text "max_timestamp") (λ t. t.max_timestamp) int_codec
        ⨾ required (text "requires_elevated_auth") (λ t. t.requires_elevated_auth) bool_codec
        ⨾ end)
      (λ channel_id channel_key team_id requested effective skipped_roots protected_roots
          protected_root_ids include_thread_roots min_timestamp max_timestamp
          requires_elevated_auth.
        record {
          channel_id = channel_id;
          channel_key = channel_key;
          team_id = team_id;
          requested = requested;
          effective = effective;
          skipped_roots = skipped_roots;
          protected_roots = protected_roots;
          protected_root_ids = protected_root_ids;
          include_thread_roots = include_thread_roots;
          min_timestamp = min_timestamp;
          max_timestamp = max_timestamp;
          requires_elevated_auth = requires_elevated_auth;
        })
      refl (λ t. refl)
