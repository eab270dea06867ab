-- ===== src/Capability/Tests.antt =====
-- Runs of pkg/capability/capability.go on small reports.
use uni_chat_sdk.Prelude.{Bytes, text, ◌≡◌, List, [], ◌∷◌, map}
use uni_chat_sdk.Capability.{ids, static, messages_send}
use uni_chat_sdk.Capability.Reports.{static_entry, static_lem}

abbrev adapter : List Bytes
adapter = messages_send ∷ text "messages.paint" ∷ []

static_lem_example : (static adapter).capabilities ≡ map (static_entry adapter) ids
static_lem_example = static_lem adapter
