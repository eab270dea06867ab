-- ===== src/Protocol/WireTests.antt =====
-- Runs of the codecs of pkg/protocol/protocol.go on small payloads.
use uni_chat_sdk.Prelude.{◌+◌, text, ◌==◌, ◌≡◌, refl, true, false, not, ◌||◌, some, [], ◌∷◌, ◌>>=◌}
use uni_chat_sdk.Prelude.Ints.{pos, is_zero_int}
use uni_chat_sdk.Prelude.Time.{zero_time, number_clock, number_clock-IsRfc3339}
use uni_chat_sdk.Json.Folding.{is_utf8, to_utf8}
use uni_chat_sdk.Json.Nested.{in_range}
use uni_chat_sdk.Protocol.Wire.{HistoryArgs}
use uni_chat_sdk.Protocol.Wire.Tags.{marshal_history, unmarshal_history}
use uni_chat_sdk.Protocol.Wire.RoundTrip.{history_valid, unmarshal-marshal_history}
use uni_chat_sdk.Protocol.Deletion.{
  DeletePreviewArgs, DeleteBatchArgs, marshal_preview, unmarshal_preview, marshal_batch,
  unmarshal_batch,
}
use uni_chat_sdk.Protocol.Deletion.Codec.{preview_valid, batch_valid, unmarshal-marshal_delete}

abbrev page : HistoryArgs
page = record {
  channel_id = text "c";
  channel = [];
  before = [];
  limit = pos 20;
  thread_root_id = [];
  since_time = zero_time;
  until_time = zero_time + 7;
  max_pages = pos 0;
  max_pages_set = true;
}

page-valid : history_valid page ≡ true
unfolding history_valid in_range is_utf8 to_utf8 ◌==◌
page-valid = refl

unmarshal-marshal_history_example :
    (marshal_history number_clock number_clock-IsRfc3339 page
      >>= unmarshal_history number_clock number_clock-IsRfc3339)
    ≡ some (record page { max_pages_set = page.max_pages_set || not (is_zero_int page.max_pages) })
unmarshal-marshal_history_example =
    unmarshal-marshal_history number_clock number_clock-IsRfc3339 page page-valid

abbrev preview : DeletePreviewArgs
preview = record {
  channel_id = text "c";
  channel = [];
  engine = [];
  post_ids = text "p" ∷ [];
  from = zero_time;
  to = zero_time + 7;
  include_thread_roots = true;
  want_channel_key = false;
}

abbrev batch : DeleteBatchArgs
batch = record {
  channel_id = text "c";
  engine = [];
  post_ids = text "p" ∷ [];
  from = zero_time;
  to = zero_time + 7;
  snapshot = text "s";
  include_thread_roots = true;
  protected_root_ids = [];
  range_chunk = false;
}

preview-valid : preview_valid preview ≡ true
unfolding preview_valid in_range is_utf8 to_utf8 ◌==◌
preview-valid = refl

batch-valid : batch_valid batch ≡ true
unfolding batch_valid in_range is_utf8 to_utf8 ◌==◌
batch-valid = refl

unmarshal-marshal_delete_example :
    ((marshal_preview number_clock number_clock-IsRfc3339 preview
        >>= unmarshal_preview number_clock number_clock-IsRfc3339)
      ≡ some preview)
    × ((marshal_batch number_clock number_clock-IsRfc3339 batch
          >>= unmarshal_batch number_clock number_clock-IsRfc3339)
        ≡ some batch)
unmarshal-marshal_delete_example =
    unmarshal-marshal_delete number_clock number_clock-IsRfc3339 preview batch preview-valid
      batch-valid
