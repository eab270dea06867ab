-- ===== src/Protocol/Listen.antt =====
-- Listen of pkg/protocol/protocol.go: the calls that make the daemon's socket.
pub mod Private
use uni_chat_sdk.Prelude.{ℕ, Bytes, Bool, true, false, Option, none, some, List, [], ◌∷◌}

abbrev pub Error : Type 0
Error = Option Bytes

-- 0o600 and 0o700
abbrev pub private_socket : ℕ
private_socket = 384

abbrev pub private_dir : ℕ
private_dir = 448

-- The socket's directory and the socket by their modes, `none` where there is none, and whether this
-- call listens on the socket.
pub record Endpoint : Type 0 where
  pub dir_mode : Option ℕ
  pub socket_mode : Option ℕ
  pub listening : Bool

-- What the calls come to. `socket_mode` is the mode that a new socket gets from the system.
pub record Calls : Type 0 where
  pub mkdir : Error
  pub chmod_dir : Error
  pub remove : Error
  pub listen : Error
  pub socket_mode : ℕ
  pub chmod_socket : Error

unfoldable pub make_dir : Endpoint → Endpoint
make_dir e = elim e.dir_mode [ none ↦ record e { dir_mode = some private_dir } | some m ↦ e ]

-- The error of the removal of a stale socket is ignored.
unfoldable pub remove_socket : Calls → Endpoint → Endpoint
remove_socket c e = elim c.remove [ none ↦ record e { socket_mode = none } | some x ↦ e ]

-- The endpoints behind the calls, the last one first, and the error. `past` are those so far.
unfoldable pub narrow_socket : Calls → List Endpoint → Endpoint → List Endpoint × Error
narrow_socket c past e = elim c.chmod_socket [
  | some x ↦ (record e { listening = false; socket_mode = none } ∷ e ∷ past, some x)
  | none ↦ (record e { socket_mode = some private_socket } ∷ e ∷ past, none)
]

unfoldable pub open_socket : Calls → List Endpoint → Endpoint → List Endpoint × Error
open_socket c past e = elim c.listen [
  | some x ↦ (e ∷ past, some x)
  | none ↦
      narrow_socket c (e ∷ past) (record e { listening = true; socket_mode = some c.socket_mode })
]

unfoldable pub narrow_dir : Calls → List Endpoint → Endpoint → List Endpoint × Error
narrow_dir c past e = elim c.chmod_dir [
  | some x ↦ (e ∷ past, some x)
  | none ↦
      let narrow = record e { dir_mode = some private_dir } in
      open_socket c (narrow ∷ e ∷ past) (remove_socket c narrow)
]

-- Closing a Unix listener removes its socket.
unfoldable pub listen : Calls → Endpoint → List Endpoint × Error
listen c e = elim c.mkdir [ some x ↦ (e ∷ [], some x) | none ↦ narrow_dir c (e ∷ []) (make_dir e) ]
