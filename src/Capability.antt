-- ===== src/Capability.antt =====
-- pkg/capability/capability.go: what an engine can do, reported for a fixed list of capabilities.
pub mod Reports
mod Tests
use uni_chat_sdk.Prelude.{
  Bytes, text, ◌==◌, Bool, true, false, Option, none, some, List, [], ◌∷◌, ◌++◌, map, if◌then◌else◌,
}
use uni_chat_sdk.Prelude.GoMap.{GoMap, Table, lookup, made, empty, index, put}

abbrev pub channels_list : Bytes
channels_list = text "channels.list"

abbrev pub messages_history : Bytes
messages_history = text "messages.history"

abbrev pub messages_search : Bytes
messages_search = text "messages.search"

abbrev pub messages_send : Bytes
messages_send = text "messages.send"

abbrev pub messages_react : Bytes
messages_react = text "messages.react"

abbrev pub messages_edit : Bytes
messages_edit = text "messages.edit"

abbrev pub messages_get_post : Bytes
messages_get_post = text "messages.get_post"

abbrev pub messages_delete : Bytes
messages_delete = text "messages.delete"

abbrev pub messages_delete_range : Bytes
messages_delete_range = text "messages.delete_range"

abbrev pub channels_watch : Bytes
channels_watch = text "channels.watch"

abbrev pub notifications_check : Bytes
notifications_check = text "notifications.check"

abbrev pub notifications_check_cursors : Bytes
notifications_check_cursors = text "notifications.check_cursors"

unfoldable pub ids : List Bytes
ids =
    channels_list ∷ messages_history ∷ messages_search ∷ messages_send ∷ messages_react
    ∷ messages_edit ∷ messages_get_post ∷ messages_delete ∷ messages_delete_range ∷ channels_watch
    ∷ notifications_check ∷ notifications_check_cursors ∷ []

abbrev pub available : Bytes
available = text "available"

abbrev pub unsupported : Bytes
unsupported = text "unsupported"

abbrev pub unknown : Bytes
unknown = text "unknown"

abbrev pub restricted : Bytes
restricted = text "restricted"

abbrev pub api_key_restricted : Bytes
api_key_restricted = text "api_key_restricted"

abbrev pub api_unsupported : Bytes
api_unsupported = text "api_unsupported"

abbrev pub adapter_not_implemented : Bytes
adapter_not_implemented = text "adapter_not_implemented"

pub record Capability : Type 0 where
  pub id : Bytes
  pub label : Bytes
  pub action : Bytes
  pub status : Bytes
  pub reason : Bytes

pub record Report : Type 0 where
  pub capabilities : List Capability

pub record Result : Type 0 where
  pub status : Bytes
  pub reason : Bytes

pub record UnavailableError : Type 0 where
  pub id : Bytes
  pub status : Bytes
  pub reason : Bytes

-- UnavailableError.Error
unfoldable pub unavailable_text : UnavailableError → Bytes
unavailable_text e = text "capability " ++ e.id ++ text " is " ++ e.status

-- A read of a map of strings: the empty string where the key is missing.
abbrev pub or_empty : Option Bytes → Bytes
or_empty none = []
or_empty (some s) = s

abbrev pub label_table : Table Bytes
label_table =
    (channels_list, text "List channels")
    ∷ (messages_history, text "Read message history")
    ∷ (messages_search, text "Search messages")
    ∷ (messages_send, text "Send messages")
    ∷ (messages_react, text "React to messages")
    ∷ (messages_edit, text "Edit messages")
    ∷ (messages_get_post, text "Read one message")
    ∷ (messages_delete, text "Delete messages")
    ∷ (messages_delete_range, text "Delete message ranges")
    ∷ (channels_watch, text "Watch channels")
    ∷ (notifications_check, text "Check notifications")
    ∷ (notifications_check_cursors, text "Check notifications with cursors")
    ∷ []

unfoldable pub label : Bytes → Bytes
label id = or_empty (lookup id label_table)

abbrev pub action_table : Table Bytes
action_table =
    (channels_list, text "channels.list")
    ∷ (messages_history, text "messages.history")
    ∷ (messages_search, text "messages.search")
    ∷ (messages_send, text "messages.send")
    ∷ (messages_react, text "messages.react")
    ∷ (messages_edit, text "messages.edit")
    ∷ (messages_get_post, text "messages.get_post")
    ∷ (messages_delete, text "messages.delete")
    ∷ (messages_delete_range, text "messages.delete_range")
    ∷ (channels_watch, text "channels.watch")
    ∷ (notifications_check, text "notifications.check")
    ∷ (notifications_check_cursors, text "notifications.check_cursors")
    ∷ []

unfoldable pub action : Bytes → Bytes
action id = or_empty (lookup id action_table)

abbrev pub or_false : Option Bool → Bool
or_false none = false
or_false (some b) = b

-- set[id] = true for each id; the map comes from `make`
unfoldable pub support_set : GoMap Bool → List Bytes → GoMap Bool
support_set set [] = set
support_set set (id ∷ supported) = support_set (put set id true) supported

unfoldable pub static_capability : GoMap Bool → Bytes → Capability
static_capability set id =
    let c : Capability = record {
      id = id;
      label = label id;
      action = action id;
      status = unsupported;
      reason = adapter_not_implemented;
    } in
    if or_false (index set id) then record c { status = available; reason = [] } else c

unfoldable pub static : List Bytes → Report
static supported =
    let set = support_set empty supported in
    record { capabilities = map (static_capability set) ids }

unfoldable pub apply_result : GoMap Result → Capability → Capability
apply_result results c = elim (index results c.id) [
  | none ↦ c
  | some result ↦ record c { status = result.status; reason = result.reason }
]

-- The source writes the capabilities in place: its argument's slice shows the result as well.
unfoldable pub apply : Report → GoMap Result → Report
apply report results = record { capabilities = map (apply_result results) report.capabilities }

unfoldable pub unknown_results : GoMap Result → List Bytes → GoMap Result
unknown_results results [] = results
unknown_results results (id ∷ rest) =
    unknown_results (put results id (record { status = unknown; reason = [] })) rest

unfoldable pub all_unknown : Report
all_unknown = apply (static ids) (unknown_results empty ids)
