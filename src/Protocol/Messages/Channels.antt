-- ===== src/Protocol/Messages/Channels.antt =====
-- The messages of pkg/protocol/protocol.go for posting, watching and listing channels.
use uni_chat_sdk.Prelude.{Bool, Bytes, List, Option, refl, text, ◌==◌}
use uni_chat_sdk.Json.Folding.{fold_key}
use uni_chat_sdk.Json.Fields.{end, has_key, is_fresh, optional, required, well_formed, ◌⨾◌}
use uni_chat_sdk.Json.Structs.{Struct, struct_codec, struct_of}
use uni_chat_sdk.Json.Codecs.{bool_codec, text_codec}
use uni_chat_sdk.Json.Nested.{pointer_codec, slice_codec}
use uni_chat_sdk.Protocol.Messages.Items.{check_item_struct}
use uni_chat_sdk.Protocol.Types.{CheckItem}

pub record PostArgs : Type 0 where
  pub channel : Bytes
  pub text : Bytes
  pub root_post_id : Bytes

unfoldable pub post_args_struct : Struct PostArgs
unfolding well_formed is_fresh has_key fold_key ◌==◌
post_args_struct =
    struct_of
      (required (text "channel") (λ t. t.channel) text_codec
        ⨾ required (text "text") (λ t. t.text) text_codec
        ⨾ optional (text "root_post_id") (λ t. t.root_post_id) text_codec
        ⨾ end)
      (λ channel text root_post_id. record {
        channel = channel;
        text = text;
        root_post_id = root_post_id;
      })
      refl (λ t. refl)

pub record PostData : Type 0 where
  pub permalink : Bytes
  pub channel_id : Bytes
  pub post_id : Bytes

unfoldable pub post_data_struct : Struct PostData
unfolding well_formed is_fresh has_key fold_key ◌==◌
post_data_struct =
    struct_of
      (required (text "permalink") (λ t. t.permalink) text_codec
        ⨾ optional (text "channel_id") (λ t. t.channel_id) text_codec
        ⨾ optional (text "post_id") (λ t. t.post_id) text_codec
        ⨾ end)
      (λ permalink channel_id post_id. record {
        permalink = permalink;
        channel_id = channel_id;
        post_id = post_id;
      })
      refl (λ t. refl)

pub record WatchArgs : Type 0 where
  pub channel : Bytes

unfoldable pub watch_args_struct : Struct WatchArgs
unfolding well_formed is_fresh has_key fold_key ◌==◌
watch_args_struct =
    struct_of (required (text "channel") (λ t. t.channel) text_codec ⨾ end)
      (λ channel. record { channel = channel }) refl (λ t. refl)

pub record WatchListData : Type 0 where
  pub channels : List Bytes

unfoldable pub watch_list_data_struct : Struct WatchListData
unfolding well_formed is_fresh has_key fold_key ◌==◌
watch_list_data_struct =
    struct_of (required (text "channels") (λ t. t.channels) (slice_codec text_codec) ⨾ end)
      (λ channels. record { channels = channels }) refl (λ t. refl)

pub record ChannelsArgs : Type 0 where
  pub since : Bytes
  pub mode : Bytes

unfoldable pub channels_args_struct : Struct ChannelsArgs
unfolding well_formed is_fresh has_key fold_key ◌==◌
channels_args_struct =
    struct_of
      (optional (text "since") (λ t. t.since) text_codec
        ⨾ optional (text "mode") (λ t. t.mode) text_codec
        ⨾ end)
      (λ since mode. record { since = since; mode = mode }) refl (λ t. refl)

pub record ChannelInfo : Type 0 where
  pub engine : Bytes
  pub channel_id : Bytes
  pub channel_ref : Bytes
  pub display_name : Bytes
  pub kind : Bytes
  pub always : Bool
  pub last_activity : Bytes
  pub pending : Option CheckItem

unfoldable pub channel_info_struct : Struct ChannelInfo
unfolding well_formed is_fresh has_key fold_key ◌==◌
channel_info_struct =
    struct_of
      (required (text "engine") (λ t. t.engine) text_codec
        ⨾ required (text "channel_id") (λ t. t.channel_id) text_codec
        ⨾ required (text "channel_ref") (λ t. t.channel_ref) text_codec
        ⨾ optional (text "display_name") (λ t. t.display_name) text_codec
        ⨾ required (text "kind") (λ t. t.kind) text_codec
        ⨾ optional (text "always") (λ t. t.always) bool_codec
        ⨾ optional (text "last_activity") (λ t. t.last_activity) text_codec
        ⨾ optional (text "pending") (λ t. t.pending)
            (pointer_codec (struct_codec check_item_struct))
        ⨾ end)
      (λ engine channel_id channel_ref display_name kind always last_activity pending. record {
        engine = engine;
        channel_id = channel_id;
        channel_ref = channel_ref;
        display_name = display_name;
        kind = kind;
        always = always;
        last_activity = last_activity;
        pending = pending;
      })
      refl (λ t. refl)

pub record ChannelsData : Type 0 where
  pub channels : List ChannelInfo
  pub mode : Bytes
  pub partial : Bool
  pub engines : List Bytes

unfoldable pub channels_data_struct : Struct ChannelsData
unfolding well_formed is_fresh has_key fold_key ◌==◌
channels_data_struct =
    struct_of
      (required (text "channels") (λ t. t.channels) (slice_codec (struct_codec channel_info_struct))
        ⨾ optional (text "mode") (λ t. t.mode) text_codec
        ⨾ optional (text "partial") (λ t. t.partial) bool_codec
        ⨾ optional (text "engines") (λ t. t.engines) (slice_codec text_codec)
        ⨾ end)
      (λ channels mode partial engines. record {
        channels = channels;
        mode = mode;
        partial = partial;
        engines = engines;
      })
      refl (λ t. refl)
