-- ===== src/Protocol/Messages/Checks.antt =====
-- The messages of pkg/protocol/protocol.go for checking for new posts and acknowledging them.
use uni_chat_sdk.Prelude.{Bool, Bytes, List, refl, text, ◌==◌}
use uni_chat_sdk.Prelude.GoMap.{GoMap}
use uni_chat_sdk.Json.Folding.{fold_key}
use uni_chat_sdk.Json.Fields.{end, has_key, is_fresh, optional, required, well_formed, ◌⨾◌}
use uni_chat_sdk.Json.Structs.{Struct, struct_codec, struct_of}
use uni_chat_sdk.Json.Codecs.{bool_codec, text_codec}
use uni_chat_sdk.Json.Nested.{slice_codec}
use uni_chat_sdk.Json.Maps.{map_codec}
use uni_chat_sdk.Protocol.Messages.Items.{SyncError, check_item_struct, sync_error_struct}
use uni_chat_sdk.Protocol.Types.{CheckItem}

pub record CheckData : Type 0 where
  pub items : List CheckItem
  pub cursors : GoMap Bytes
  pub partial : Bool
  pub errors : List SyncError

unfoldable pub check_data_struct : Struct CheckData
unfolding well_formed is_fresh has_key fold_key ◌==◌
check_data_struct =
    struct_of
      (required (text "items") (λ t. t.items) (slice_codec (struct_codec check_item_struct))
        ⨾ required (text "cursors") (λ t. t.cursors) (map_codec text_codec)
        ⨾ optional (text "partial") (λ t. t.partial) bool_codec
        ⨾ optional (text "errors") (λ t. t.errors) (slice_codec (struct_codec sync_error_struct))
        ⨾ end)
      (λ items cursors partial errors. record {
        items = items;
        cursors = cursors;
        partial = partial;
        errors = errors;
      })
      refl (λ t. refl)

pub record CheckArgs : Type 0 where
  pub include_own : Bool
  pub refresh : Bool

unfoldable pub check_args_struct : Struct CheckArgs
unfolding well_formed is_fresh has_key fold_key ◌==◌
check_args_struct =
    struct_of
      (optional (text "include_own") (λ t. t.include_own) bool_codec
        ⨾ optional (text "refresh") (λ t. t.refresh) bool_codec
        ⨾ end)
      (λ include_own refresh. record { include_own = include_own; refresh = refresh }) refl
      (λ t. refl)

pub record CheckCursorsArgs : Type 0 where
  pub cursors : GoMap Bytes
  pub include_own : Bool

unfoldable pub check_cursors_args_struct : Struct CheckCursorsArgs
unfolding well_formed is_fresh has_key fold_key ◌==◌
check_cursors_args_struct =
    struct_of
      (required (text "cursors") (λ t. t.cursors) (map_codec text_codec)
        ⨾ optional (text "include_own") (λ t. t.include_own) bool_codec
        ⨾ end)
      (λ cursors include_own. record { cursors = cursors; include_own = include_own }) refl
      (λ t. refl)

pub record SyncData : Type 0 where
  pub items : List CheckItem
  pub partial : Bool
  pub truncated : Bool
  pub errors : List SyncError

unfoldable pub sync_data_struct : Struct SyncData
unfolding well_formed is_fresh has_key fold_key ◌==◌
sync_data_struct =
    struct_of
      (required (text "items") (λ t. t.items) (slice_codec (struct_codec check_item_struct))
        ⨾ required (text "partial") (λ t. t.partial) bool_codec
        ⨾ required (text "truncated") (λ t. t.truncated) bool_codec
        ⨾ optional (text "errors") (λ t. t.errors) (slice_codec (struct_codec sync_error_struct))
        ⨾ end)
      (λ items partial truncated errors. record {
        items = items;
        partial = partial;
        truncated = truncated;
        errors = errors;
      })
      refl (λ t. refl)

pub record AckArgs : Type 0 where
  pub cursors : GoMap Bytes

unfoldable pub ack_args_struct : Struct AckArgs
unfolding well_formed is_fresh has_key fold_key ◌==◌
ack_args_struct =
    struct_of (required (text "cursors") (λ t. t.cursors) (map_codec text_codec) ⨾ end)
      (λ cursors. record { cursors = cursors }) refl (λ t. refl)
