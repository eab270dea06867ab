-- ===== src/Protocol/Client.antt =====
-- The client of pkg/protocol/protocol.go: one call over the daemon's socket.
pub mod Codec
pub mod Served
pub mod Spawned
mod Tests
use uni_chat_sdk.Prelude.{ℕ, Bytes, text, none, some, List, [], ◌∷◌, ◌++◌}
use uni_chat_sdk.Protocol.Types.{Request, Response}
use uni_chat_sdk.Protocol.Intake.{Ending}
use uni_chat_sdk.Protocol.Engine.{Error, Result, error, value}

-- net.Dial: a connection, or the text of an error.
pub data Dial : Type 0 where
  connected : Dial
  refused : Bytes → Dial

-- What the other end of a connection does with what the client writes: the error of the write, and
-- what the client can read after it, with how that ends.
pub record Peer : Type 0 where
  pub write : Bytes → Error
  pub reply : Bytes → Bytes
  pub ending : Bytes → Ending

-- What the client does to its connection. The deadline lies `timeout` after now.
pub data Deed : Type 0 where
  sets_deadline : ℕ → Deed
  sends : Bytes → Deed
  receives : Deed
  closes : Deed

-- json.NewEncoder(w).Encode writes a newline after the text.
abbrev pub line : Bytes → Bytes
line b = b ++ (10 ∷ [])

-- ErrDaemonUnreachable
abbrev pub daemon_unreachable : Bytes
daemon_unreachable = text "uni-chatd is not running"

-- `marshal` is json.Marshal of a request and `decode` json.NewDecoder(conn).Decode of a response.
module _ (marshal : Request → Result Bytes) (decode : Bytes → Ending → Result Response) where
  unfoldable pub exchange : Peer → Bytes → List Deed × Result Response
  exchange peer b = elim (peer.write (line b)) [
    | some err ↦ (sends (line b) ∷ [], error err)
    | none ↦ (sends (line b) ∷ receives ∷ [], decode (peer.reply (line b)) (peer.ending (line b)))
  ]

  unfoldable pub send_request : Peer → Request → List Deed × Result Response
  send_request peer req = elim (marshal req) [
    | error err ↦ ([], error err)
    | value b ↦ exchange peer b
  ]

  unfoldable pub call : Dial → Peer → Request → ℕ → List Deed × Result Response
  call (refused err) peer req timeout = ([], error (daemon_unreachable ++ text ": " ++ err))
  call connected peer req timeout =
      let (deeds, result) = send_request peer req in
      (sets_deadline timeout ∷ deeds ++ (closes ∷ []), result)
