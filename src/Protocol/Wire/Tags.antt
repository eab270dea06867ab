-- ===== src/Protocol/Wire/Tags.antt =====
-- The tags of the wire structs of pkg/protocol/protocol.go, and the codecs that go through them.
use uni_chat_sdk.Prelude.{text, ◌==◌, Option, some, ◌>>=◌, refl}
use uni_chat_sdk.Prelude.Time.{Rfc3339, IsRfc3339}
use uni_chat_sdk.Json.Values.{Value}
use uni_chat_sdk.Json.Folding.{fold_key}
use uni_chat_sdk.Json.Fields.{required, optional, ◌⨾◌, end, well_formed, is_fresh, has_key}
use uni_chat_sdk.Json.Structs.{Struct, struct_of, encode_struct, decode_struct}
use uni_chat_sdk.Json.Codecs.{text_codec, int_codec}
use uni_chat_sdk.Json.Nested.{pointer_codec, time_codec}
use uni_chat_sdk.Protocol.Wire.{
  HistoryArgs, HistoryWire, HistoryRead, history_wire, history_args, SearchArgs, SearchWire,
  search_wire, search_args,
}

module _ (clock : Rfc3339) (clock_ok : IsRfc3339 clock) where
  unfoldable pub history_wire_struct : Struct HistoryWire
  unfolding well_formed is_fresh has_key fold_key ◌==◌
  history_wire_struct =
      struct_of
        (optional (text "channel_id") (λ t. t.channel_id) text_codec
          ⨾ optional (text "channel") (λ t. t.channel) text_codec
          ⨾ optional (text "before") (λ t. t.before) text_codec
          ⨾ optional (text "limit") (λ t. t.limit) int_codec
          ⨾ optional (text "thread_root_id") (λ t. t.thread_root_id) text_codec
          ⨾ optional (text "since_time") (λ t. t.since_time)
              (pointer_codec (time_codec clock clock_ok))
          ⨾ optional (text "until_time") (λ t. t.until_time)
              (pointer_codec (time_codec clock clock_ok))
          ⨾ optional (text "max_pages") (λ t. t.max_pages) (pointer_codec int_codec)
          ⨾ end)
        (λ channel_id channel before limit thread_root_id since_time until_time max_pages. record {
          channel_id = channel_id;
          channel = channel;
          before = before;
          limit = limit;
          thread_root_id = thread_root_id;
          since_time = since_time;
          until_time = until_time;
          max_pages = max_pages;
        })
        refl (λ t. refl)

  unfoldable pub history_read_struct : Struct HistoryRead
  unfolding well_formed is_fresh has_key fold_key ◌==◌
  history_read_struct =
      struct_of
        (required (text "channel_id") (λ t. t.channel_id) text_codec
          ⨾ required (text "channel") (λ t. t.channel) text_codec
          ⨾ required (text "before") (λ t. t.before) text_codec
          ⨾ required (text "limit") (λ t. t.limit) int_codec
          ⨾ required (text "thread_root_id") (λ t. t.thread_root_id) text_codec
          ⨾ required (text "since_time") (λ t. t.since_time) (time_codec clock clock_ok)
          ⨾ required (text "until_time") (λ t. t.until_time) (time_codec clock clock_ok)
          ⨾ required (text "max_pages") (λ t. t.max_pages) (pointer_codec int_codec)
          ⨾ end)
        (λ channel_id channel before limit thread_root_id since_time until_time max_pages. record {
          channel_id = channel_id;
          channel = channel;
          before = before;
          limit = limit;
          thread_root_id = thread_root_id;
          since_time = since_time;
          until_time = until_time;
          max_pages = max_pages;
        })
        refl (λ t. refl)

  unfoldable pub search_wire_struct : Struct SearchWire
  unfolding well_formed is_fresh has_key fold_key ◌==◌
  search_wire_struct =
      struct_of
        (required (text "query") (λ t. t.query) text_codec
          ⨾ optional (text "channel") (λ t. t.channel) text_codec
          ⨾ optional (text "since_time") (λ t. t.since_time)
              (pointer_codec (time_codec clock clock_ok))
          ⨾ optional (text "until_time") (λ t. t.until_time)
              (pointer_codec (time_codec clock clock_ok))
          ⨾ optional (text "author") (λ t. t.author) text_codec
          ⨾ end)
        (λ query channel since_time until_time author. record {
          query = query;
          channel = channel;
          since_time = since_time;
          until_time = until_time;
          author = author;
        })
        refl (λ t. refl)

  unfoldable pub search_read_struct : Struct SearchArgs
  unfolding well_formed is_fresh has_key fold_key ◌==◌
  search_read_struct =
      struct_of
        (required (text "query") (λ t. t.query) text_codec
          ⨾ required (text "channel") (λ t. t.channel) text_codec
          ⨾ required (text "since_time") (λ t. t.since_time) (time_codec clock clock_ok)
          ⨾ required (text "until_time") (λ t. t.until_time) (time_codec clock clock_ok)
          ⨾ required (text "author") (λ t. t.author) text_codec
          ⨾ end)
        (λ query channel since_time until_time author. record {
          query = query;
          channel = channel;
          since_time = since_time;
          until_time = until_time;
          author = author;
        })
        refl (λ t. refl)

  unfoldable pub marshal_history : HistoryArgs → Option Value
  marshal_history a = encode_struct history_wire_struct (history_wire a)

  unfoldable pub unmarshal_history : Value → Option HistoryArgs
  unmarshal_history v = decode_struct history_read_struct v >>= λ w. some (history_args w)

  unfoldable pub marshal_search : SearchArgs → Option Value
  marshal_search a = encode_struct search_wire_struct (search_wire a)

  unfoldable pub unmarshal_search : Value → Option SearchArgs
  unmarshal_search v = decode_struct search_read_struct v >>= λ w. some (search_args w)
