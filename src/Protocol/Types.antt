-- ===== src/Protocol/Types.antt =====
-- The messages of pkg/protocol/protocol.go that the state and the transports handle.
use uni_chat_sdk.Prelude.{Bytes, Bool, List}

-- Args is the raw JSON of the payload; `[]` is an absent one.
pub record Request : Type 0 where
  pub cmd : Bytes
  pub args : Bytes

pub record Response : Type 0 where
  pub ok : Bool
  pub body : Bytes
  pub error : Bytes

pub record ReactionDetail : Type 0 where
  pub emoji : Bytes
  pub users : List Bytes

pub record CheckItem : Type 0 where
  pub channel_id : Bytes
  pub channel_ref : Bytes
  pub sender : Bytes
  pub message : Bytes
  pub post_id : Bytes
  pub kind : Bytes
  pub own : Bool
  pub addressed : Bool
  pub created_at : Bytes
  pub thread_root_id : Bytes
  pub deep_link : Bytes
  pub web_link : Bytes
  pub reactions : List Bytes
  pub own_reactions : List Bytes
  pub reaction_details : List ReactionDetail
