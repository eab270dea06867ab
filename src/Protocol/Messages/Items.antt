-- ===== src/Protocol/Messages/Items.antt =====
-- The messages of pkg/protocol/protocol.go for posts and errors, which other messages hold.
use uni_chat_sdk.Prelude.{Bytes, refl, text, ◌==◌}
use uni_chat_sdk.Json.Folding.{fold_key}
use uni_chat_sdk.Json.Fields.{end, has_key, is_fresh, optional, required, well_formed, ◌⨾◌}
use uni_chat_sdk.Json.Structs.{Struct, struct_codec, struct_of}
use uni_chat_sdk.Json.Codecs.{bool_codec, text_codec}
use uni_chat_sdk.Json.Nested.{slice_codec}
use uni_chat_sdk.Protocol.Types.{CheckItem, ReactionDetail}

unfoldable pub reaction_detail_struct : Struct ReactionDetail
unfolding well_formed is_fresh has_key fold_key ◌==◌
reaction_detail_struct =
    struct_of
      (required (text "emoji") (λ t. t.emoji) text_codec
        ⨾ required (text "users") (λ t. t.users) (slice_codec text_codec)
        ⨾ end)
      (λ emoji users. record { emoji = emoji; users = users }) refl (λ t. refl)

unfoldable pub check_item_struct : Struct CheckItem
unfolding well_formed is_fresh has_key fold_key ◌==◌
check_item_struct =
    struct_of
      (required (text "channel_id") (λ t. t.channel_id) text_codec
        ⨾ required (text "channel_ref") (λ t. t.channel_ref) text_codec
        ⨾ required (text "sender") (λ t. t.sender) text_codec
        ⨾ required (text "message") (λ t. t.message) text_codec
        ⨾ required (text "post_id") (λ t. t.post_id) text_codec
        ⨾ required (text "kind") (λ t. t.kind) text_codec
        ⨾ optional (text "own") (λ t. t.own) bool_codec
        ⨾ optional (text "addressed") (λ t. t.addressed) bool_codec
        ⨾ optional (text "created_at") (λ t. t.created_at) text_codec
        ⨾ optional (text "thread_root_id") (λ t. t.thread_root_id) text_codec
        ⨾ required (text "deep_link") (λ t. t.deep_link) text_codec
        ⨾ required (text "web_link") (λ t. t.web_link) text_codec
        ⨾ optional (text "reactions") (λ t. t.reactions) (slice_codec text_codec)
        ⨾ optional (text "own_reactions") (λ t. t.own_reactions) (slice_codec text_codec)
        ⨾ optional (text "reaction_details") (λ t. t.reaction_details)
            (slice_codec (struct_codec reaction_detail_struct))
        ⨾ end)
      (λ channel_id channel_ref sender message post_id kind own addressed created_at thread_root_id
          deep_link web_link reactions own_reactions reaction_details.
        record {
          channel_id = channel_id;
          channel_ref = channel_ref;
          sender = sender;
          message = message;
          post_id = post_id;
          kind = kind;
          own = own;
          addressed = addressed;
          created_at = created_at;
          thread_root_id = thread_root_id;
          deep_link = deep_link;
          web_link = web_link;
          reactions = reactions;
          own_reactions = own_reactions;
          reaction_details = reaction_details;
        })
      refl (λ t. refl)

pub record SyncError : Type 0 where
  pub engine : Bytes
  pub channel_id : Bytes
  pub channel_ref : Bytes
  pub error : Bytes

unfoldable pub sync_error_struct : Struct SyncError
unfolding well_formed is_fresh has_key fold_key ◌==◌
sync_error_struct =
    struct_of
      (required (text "engine") (λ t. t.engine) text_codec
        ⨾ optional (text "channel_id") (λ t. t.channel_id) text_codec
        ⨾ optional (text "channel_ref") (λ t. t.channel_ref) text_codec
        ⨾ required (text "error") (λ t. t.error) text_codec
        ⨾ end)
      (λ engine channel_id channel_ref error. record {
        engine = engine;
        channel_id = channel_id;
        channel_ref = channel_ref;
        error = error;
      })
      refl (λ t. refl)
