-- ===== src/Protocol/Messages/Engines.antt =====
-- The messages of pkg/protocol/protocol.go for the state and the capabilities of the engines.
use uni_chat_sdk.Prelude.{Bool, Bytes, List, Option, refl, text, ◌==◌}
use uni_chat_sdk.Prelude.Ints.{ℤ}
use uni_chat_sdk.Json.Folding.{fold_key}
use uni_chat_sdk.Json.Fields.{end, has_key, is_fresh, optional, required, well_formed, ◌⨾◌}
use uni_chat_sdk.Json.Structs.{Struct, struct_codec, struct_of}
use uni_chat_sdk.Json.Codecs.{bool_codec, int_codec, text_codec}
use uni_chat_sdk.Json.Nested.{pointer_codec, slice_codec}
use uni_chat_sdk.Protocol.Messages.Items.{SyncError, sync_error_struct}

pub record StatusData : Type 0 where
  pub running : Bool
  pub last_check : Bytes
  pub poll_interval_seconds : ℤ

unfoldable pub status_data_struct : Struct StatusData
unfolding well_formed is_fresh has_key fold_key ◌==◌
status_data_struct =
    struct_of
      (required (text "running") (λ t. t.running) bool_codec
        ⨾ optional (text "last_check") (λ t. t.last_check) text_codec
        ⨾ required (text "poll_interval_seconds") (λ t. t.poll_interval_seconds) int_codec
        ⨾ end)
      (λ running last_check poll_interval_seconds. record {
        running = running;
        last_check = last_check;
        poll_interval_seconds = poll_interval_seconds;
      })
      refl (λ t. refl)

pub record PollIntervalArgs : Type 0 where
  pub seconds : ℤ

unfoldable pub poll_interval_args_struct : Struct PollIntervalArgs
unfolding well_formed is_fresh has_key fold_key ◌==◌
poll_interval_args_struct =
    struct_of (required (text "seconds") (λ t. t.seconds) int_codec ⨾ end)
      (λ seconds. record { seconds = seconds }) refl (λ t. refl)

pub record EngineStatusData : Type 0 where
  pub last_check : Bytes
  pub configured : Bool

unfoldable pub engine_status_data_struct : Struct EngineStatusData
unfolding well_formed is_fresh has_key fold_key ◌==◌
engine_status_data_struct =
    struct_of
      (optional (text "last_check") (λ t. t.last_check) text_codec
        ⨾ required (text "configured") (λ t. t.configured) bool_codec
        ⨾ end)
      (λ last_check configured. record { last_check = last_check; configured = configured }) refl
      (λ t. refl)

pub record CapabilitiesArgs : Type 0 where
  pub refresh : Bool

unfoldable pub capabilities_args_struct : Struct CapabilitiesArgs
unfolding well_formed is_fresh has_key fold_key ◌==◌
capabilities_args_struct =
    struct_of (optional (text "refresh") (λ t. t.refresh) bool_codec ⨾ end)
      (λ refresh. record { refresh = refresh }) refl (λ t. refl)

pub record CapabilityReason : Type 0 where
  pub code : Bytes

unfoldable pub capability_reason_struct : Struct CapabilityReason
unfolding well_formed is_fresh has_key fold_key ◌==◌
capability_reason_struct =
    struct_of (required (text "code") (λ t. t.code) text_codec ⨾ end)
      (λ code. record { code = code }) refl (λ t. refl)

pub record CapabilityInfo : Type 0 where
  pub id : Bytes
  pub label : Bytes
  pub action : Bytes
  pub status : Bytes
  pub reason : Option CapabilityReason

unfoldable pub capability_info_struct : Struct CapabilityInfo
unfolding well_formed is_fresh has_key fold_key ◌==◌
capability_info_struct =
    struct_of
      (required (text "id") (λ t. t.id) text_codec
        ⨾ required (text "label") (λ t. t.label) text_codec
        ⨾ required (text "action") (λ t. t.action) text_codec
        ⨾ required (text "status") (λ t. t.status) text_codec
        ⨾ optional (text "reason") (λ t. t.reason)
            (pointer_codec (struct_codec capability_reason_struct))
        ⨾ end)
      (λ id label action status reason. record {
        id = id;
        label = label;
        action = action;
        status = status;
        reason = reason;
      })
      refl (λ t. refl)

pub record EngineCapabilitiesData : Type 0 where
  pub engine : Bytes
  pub capabilities : List CapabilityInfo

unfoldable pub engine_capabilities_data_struct : Struct EngineCapabilitiesData
unfolding well_formed is_fresh has_key fold_key ◌==◌
engine_capabilities_data_struct =
    struct_of
      (required (text "engine") (λ t. t.engine) text_codec
        ⨾ required (text "capabilities") (λ t. t.capabilities)
            (slice_codec (struct_codec capability_info_struct))
        ⨾ end)
      (λ engine capabilities. record { engine = engine; capabilities = capabilities }) refl
      (λ t. refl)

pub record CapabilitiesData : Type 0 where
  pub engines : List EngineCapabilitiesData
  pub partial : Bool
  pub errors : List SyncError

unfoldable pub capabilities_data_struct : Struct CapabilitiesData
unfolding well_formed is_fresh has_key fold_key ◌==◌
capabilities_data_struct =
    struct_of
      (required (text "engines") (λ t. t.engines)
          (slice_codec (struct_codec engine_capabilities_data_struct))
        ⨾ optional (text "partial") (λ t. t.partial) bool_codec
        ⨾ optional (text "errors") (λ t. t.errors) (slice_codec (struct_codec sync_error_struct))
        ⨾ end)
      (λ engines partial errors. record { engines = engines; partial = partial; errors = errors })
      refl (λ t. refl)
