-- ===== src/Protocol/Messages/Posts.antt =====
-- The messages of pkg/protocol/protocol.go for sending, reacting, editing, reading and deleting one post.
use uni_chat_sdk.Prelude.{Bool, Bytes, refl, text, ◌==◌}
use uni_chat_sdk.Json.Folding.{fold_key}
use uni_chat_sdk.Json.Fields.{end, has_key, is_fresh, optional, required, well_formed, ◌⨾◌}
use uni_chat_sdk.Json.Structs.{Struct, struct_codec, struct_of}
use uni_chat_sdk.Json.Codecs.{bool_codec, text_codec}
use uni_chat_sdk.Protocol.Messages.Items.{check_item_struct}
use uni_chat_sdk.Protocol.Types.{CheckItem}
use uni_chat_sdk.Protocol.Payload.{GetPostArgs}

pub record SendArgs : Type 0 where
  pub channel_id : Bytes
  pub text : Bytes
  pub root_post_id : Bytes

unfoldable pub send_args_struct : Struct SendArgs
unfolding well_formed is_fresh has_key fold_key ◌==◌
send_args_struct =
    struct_of
      (required (text "channel_id") (λ t. t.channel_id) text_codec
        ⨾ required (text "text") (λ t. t.text) text_codec
        ⨾ optional (text "root_post_id") (λ t. t.root_post_id) text_codec
        ⨾ end)
      (λ channel_id text root_post_id. record {
        channel_id = channel_id;
        text = text;
        root_post_id = root_post_id;
      })
      refl (λ t. refl)

pub record SendData : Type 0 where
  pub item : CheckItem

unfoldable pub send_data_struct : Struct SendData
unfolding well_formed is_fresh has_key fold_key ◌==◌
send_data_struct =
    struct_of (required (text "item") (λ t. t.item) (struct_codec check_item_struct) ⨾ end)
      (λ item. record { item = item }) refl (λ t. refl)

pub record ReactArgs : Type 0 where
  pub channel_id : Bytes
  pub post_id : Bytes
  pub emoji : Bytes

unfoldable pub react_args_struct : Struct ReactArgs
unfolding well_formed is_fresh has_key fold_key ◌==◌
react_args_struct =
    struct_of
      (required (text "channel_id") (λ t. t.channel_id) text_codec
        ⨾ required (text "post_id") (λ t. t.post_id) text_codec
        ⨾ required (text "emoji") (λ t. t.emoji) text_codec
        ⨾ end)
      (λ channel_id post_id emoji. record {
        channel_id = channel_id;
        post_id = post_id;
        emoji = emoji;
      })
      refl (λ t. refl)

pub record ReactData : Type 0 where
  pub user_id : Bytes
  pub post_id : Bytes
  pub emoji : Bytes

unfoldable pub react_data_struct : Struct ReactData
unfolding well_formed is_fresh has_key fold_key ◌==◌
react_data_struct =
    struct_of
      (required (text "user_id") (λ t. t.user_id) text_codec
        ⨾ required (text "post_id") (λ t. t.post_id) text_codec
        ⨾ required (text "emoji") (λ t. t.emoji) text_codec
        ⨾ end)
      (λ user_id post_id emoji. record { user_id = user_id; post_id = post_id; emoji = emoji }) refl
      (λ t. refl)

pub record EditArgs : Type 0 where
  pub channel_id : Bytes
  pub engine : Bytes
  pub post_id : Bytes
  pub text : Bytes

unfoldable pub edit_args_struct : Struct EditArgs
unfolding well_formed is_fresh has_key fold_key ◌==◌
edit_args_struct =
    struct_of
      (optional (text "channel_id") (λ t. t.channel_id) text_codec
        ⨾ optional (text "engine") (λ t. t.engine) text_codec
        ⨾ required (text "post_id") (λ t. t.post_id) text_codec
        ⨾ required (text "text") (λ t. t.text) text_codec
        ⨾ end)
      (λ channel_id engine post_id text. record {
        channel_id = channel_id;
        engine = engine;
        post_id = post_id;
        text = text;
      })
      refl (λ t. refl)

pub record EditData : Type 0 where
  pub permalink : Bytes
  pub post_id : Bytes

unfoldable pub edit_data_struct : Struct EditData
unfolding well_formed is_fresh has_key fold_key ◌==◌
edit_data_struct =
    struct_of
      (required (text "permalink") (λ t. t.permalink) text_codec
        ⨾ required (text "post_id") (λ t. t.post_id) text_codec
        ⨾ end)
      (λ permalink post_id. record { permalink = permalink; post_id = post_id }) refl (λ t. refl)

unfoldable pub get_post_args_struct : Struct GetPostArgs
unfolding well_formed is_fresh has_key fold_key ◌==◌
get_post_args_struct =
    struct_of
      (optional (text "channel_id") (λ t. t.channel_id) text_codec
        ⨾ optional (text "engine") (λ t. t.engine) text_codec
        ⨾ required (text "post_id") (λ t. t.post_id) text_codec
        ⨾ end)
      (λ channel_id engine post_id. record {
        channel_id = channel_id;
        engine = engine;
        post_id = post_id;
      })
      refl (λ t. refl)

pub record GetPostData : Type 0 where
  pub item : CheckItem

unfoldable pub get_post_data_struct : Struct GetPostData
unfolding well_formed is_fresh has_key fold_key ◌==◌
get_post_data_struct =
    struct_of (required (text "item") (λ t. t.item) (struct_codec check_item_struct) ⨾ end)
      (λ item. record { item = item }) refl (λ t. refl)

pub record DeleteArgs : Type 0 where
  pub channel_id : Bytes
  pub engine : Bytes
  pub post_id : Bytes

unfoldable pub delete_args_struct : Struct DeleteArgs
unfolding well_formed is_fresh has_key fold_key ◌==◌
delete_args_struct =
    struct_of
      (optional (text "channel_id") (λ t. t.channel_id) text_codec
        ⨾ optional (text "engine") (λ t. t.engine) text_codec
        ⨾ required (text "post_id") (λ t. t.post_id) text_codec
        ⨾ end)
      (λ channel_id engine post_id. record {
        channel_id = channel_id;
        engine = engine;
        post_id = post_id;
      })
      refl (λ t. refl)

pub record DeleteData : Type 0 where
  pub thread_root : Bool

unfoldable pub delete_data_struct : Struct DeleteData
unfolding well_formed is_fresh has_key fold_key ◌==◌
delete_data_struct =
    struct_of (optional (text "thread_root") (λ t. t.thread_root) bool_codec ⨾ end)
      (λ thread_root. record { thread_root = thread_root }) refl (λ t. refl)
