-- ===== src/Protocol/Messages/History.antt =====
-- The messages of pkg/protocol/protocol.go for the replies to history and search.
use uni_chat_sdk.Prelude.{Bool, Bytes, List, refl, text, ◌==◌}
use uni_chat_sdk.Prelude.Time.{IsRfc3339, Rfc3339, Time}
use uni_chat_sdk.Json.Folding.{fold_key}
use uni_chat_sdk.Json.Fields.{end, has_key, is_fresh, optional, required, well_formed, ◌⨾◌}
use uni_chat_sdk.Json.Structs.{Struct, struct_codec, struct_of}
use uni_chat_sdk.Json.Codecs.{bool_codec, text_codec}
use uni_chat_sdk.Json.Nested.{slice_codec, time_codec}
use uni_chat_sdk.Protocol.Messages.Items.{check_item_struct, reaction_detail_struct}
use uni_chat_sdk.Protocol.Types.{CheckItem, ReactionDetail}

pub record HistoryData : Type 0 where
  pub items : List CheckItem
  pub has_more : Bool
  pub before_cursor : Bytes
  pub truncated : Bool

unfoldable pub history_data_struct : Struct HistoryData
unfolding well_formed is_fresh has_key fold_key ◌==◌
history_data_struct =
    struct_of
      (required (text "items") (λ t. t.items) (slice_codec (struct_codec check_item_struct))
        ⨾ required (text "has_more") (λ t. t.has_more) bool_codec
        ⨾ optional (text "before_cursor") (λ t. t.before_cursor) text_codec
        ⨾ optional (text "truncated") (λ t. t.truncated) bool_codec
        ⨾ end)
      (λ items has_more before_cursor truncated. record {
        items = items;
        has_more = has_more;
        before_cursor = before_cursor;
        truncated = truncated;
      })
      refl (λ t. refl)

pub record SearchItem : Type 0 where
  pub post_id : Bytes
  pub channel_id : Bytes
  pub channel_ref : Bytes
  pub sender : Bytes
  pub sender_user_id : Bytes
  pub message : Bytes
  pub created_at : Time
  pub thread_root_id : Bytes
  pub link : Bytes
  pub reactions : List Bytes
  pub reaction_details : List ReactionDetail

unfoldable pub search_item_struct :
    (clock : Rfc3339) (clock_ok : IsRfc3339 clock) → Struct SearchItem
unfolding well_formed is_fresh has_key fold_key ◌==◌
search_item_struct clock clock_ok =
    struct_of
      (required (text "post_id") (λ t. t.post_id) text_codec
        ⨾ required (text "channel_id") (λ t. t.channel_id) text_codec
        ⨾ optional (text "channel_ref") (λ t. t.channel_ref) text_codec
        ⨾ required (text "sender") (λ t. t.sender) text_codec
        ⨾ optional (text "sender_user_id") (λ t. t.sender_user_id) text_codec
        ⨾ required (text "message") (λ t. t.message) text_codec
        ⨾ required (text "created_at") (λ t. t.created_at) (time_codec clock clock_ok)
        ⨾ optional (text "thread_root_id") (λ t. t.thread_root_id) text_codec
        ⨾ optional (text "link") (λ t. t.link) text_codec
        ⨾ optional (text "reactions") (λ t. t.reactions) (slice_codec text_codec)
        ⨾ optional (text "reaction_details") (λ t. t.reaction_details)
            (slice_codec (struct_codec reaction_detail_struct))
        ⨾ end)
      (λ post_id channel_id channel_ref sender sender_user_id message created_at thread_root_id link
          reactions reaction_details.
        record {
          post_id = post_id;
          channel_id = channel_id;
          channel_ref = channel_ref;
          sender = sender;
          sender_user_id = sender_user_id;
          message = message;
          created_at = created_at;
          thread_root_id = thread_root_id;
          link = link;
          reactions = reactions;
          reaction_details = reaction_details;
        })
      refl (λ t. refl)

pub record SearchError : Type 0 where
  pub engine : Bytes
  pub team_id : Bytes
  pub team_ref : Bytes
  pub error : Bytes

unfoldable pub search_error_struct : Struct SearchError
unfolding well_formed is_fresh has_key fold_key ◌==◌
search_error_struct =
    struct_of
      (required (text "engine") (λ t. t.engine) text_codec
        ⨾ optional (text "team_id") (λ t. t.team_id) text_codec
        ⨾ optional (text "team_ref") (λ t. t.team_ref) text_codec
        ⨾ required (text "error") (λ t. t.error) text_codec
        ⨾ end)
      (λ engine team_id team_ref error. record {
        engine = engine;
        team_id = team_id;
        team_ref = team_ref;
        error = error;
      })
      refl (λ t. refl)

pub record SearchData : Type 0 where
  pub items : List SearchItem
  pub partial : Bool
  pub has_more : Bool
  pub errors : List SearchError

unfoldable pub search_data_struct :
    (clock : Rfc3339) (clock_ok : IsRfc3339 clock) → Struct SearchData
unfolding well_formed is_fresh has_key fold_key ◌==◌
search_data_struct clock clock_ok =
    struct_of
      (required (text "items") (λ t. t.items)
          (slice_codec (struct_codec (search_item_struct clock clock_ok)))
        ⨾ required (text "partial") (λ t. t.partial) bool_codec
        ⨾ required (text "has_more") (λ t. t.has_more) bool_codec
        ⨾ optional (text "errors") (λ t. t.errors) (slice_codec (struct_codec search_error_struct))
        ⨾ end)
      (λ items partial has_more errors. record {
        items = items;
        partial = partial;
        has_more = has_more;
        errors = errors;
      })
      refl (λ t. refl)
