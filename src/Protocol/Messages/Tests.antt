-- ===== src/Protocol/Messages/Tests.antt =====
-- Runs of the codecs on small messages.
use uni_chat_sdk.Prelude.{text, ◌==◌, true, false, some, [], ◌∷◌, ◌≡◌, refl}
use uni_chat_sdk.Prelude.Time.{number_clock, number_clock-IsRfc3339}
use uni_chat_sdk.Json.Values.{null, bool, str, object, no_members, member}
use uni_chat_sdk.Json.Folding.{fold_key, find, to_utf8}
use uni_chat_sdk.Json.Fields.{write_field, read_field, read_value}
use uni_chat_sdk.Json.Structs.{encode_struct, decode_struct}
use uni_chat_sdk.Protocol.Types.{CheckItem}
use uni_chat_sdk.Protocol.Messages.Items.{SyncError, sync_error_struct}
use uni_chat_sdk.Protocol.Messages.Channels.{ChannelInfo}
use uni_chat_sdk.Protocol.Messages.Catalogue.{of_sync_error, struct, marshal, unmarshal}

abbrev timeout : SyncError
timeout = record { engine = text "mm"; channel_id = []; channel_ref = []; error = text "timeout" }

-- {"engine":"mm","error":"timeout"}
timeout-marshal :
    marshal number_clock number_clock-IsRfc3339 of_sync_error timeout
    ≡ some (
        object (
          member
            (text "engine")
            (str (text "mm"))
            (member (text "error") (str (text "timeout")) no_members)))
unfolding struct sync_error_struct encode_struct write_field to_utf8 ◌==◌
timeout-marshal = refl

-- {"ENGINE":"mm","extra":true,"error":null,"channel_id":"c"}
timeout-unmarshal :
    unmarshal number_clock number_clock-IsRfc3339 of_sync_error (
      object (
        member (text "ENGINE") (str (text "mm")) (
          member
            (text "extra")
            (bool true)
            (member (text "error") null (member (text "channel_id") (str (text "c")) no_members)))))
    ≡ some (record { engine = text "mm"; channel_id = text "c"; channel_ref = []; error = [] })
unfolding struct sync_error_struct decode_struct read_field read_value find fold_key ◌==◌
timeout-unmarshal = refl

abbrev greeting : CheckItem
greeting = record {
  channel_id = text "c";
  channel_ref = text "t/c";
  sender = text "ann";
  message = 0xC3 ∷ 0xA9 ∷ [];
  post_id = text "p";
  kind = text "mention";
  own = false;
  addressed = true;
  created_at = [];
  thread_root_id = [];
  deep_link = [];
  web_link = [];
  reactions = text "eyes" ∷ [];
  own_reactions = [];
  reaction_details = record { emoji = text "eyes"; users = text "bob" ∷ [] } ∷ [];
}

abbrev lobby : ChannelInfo
lobby = record {
  engine = text "mm";
  channel_id = text "c";
  channel_ref = text "t/c";
  display_name = [];
  kind = text "mention";
  always = false;
  last_activity = [];
  pending = some greeting;
}
