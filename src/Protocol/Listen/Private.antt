-- ===== src/Protocol/Listen/Private.antt =====
-- The daemon's socket (pkg/protocol/protocol.go) is only ever reached by its user.
use uni_chat_sdk.Prelude.{true, false, none, some, List, [], ◌∷◌, ◌≡◌, arith}
use uni_chat_sdk.Protocol.Listen.{
  Error, private_socket, private_dir, Endpoint, Calls, make_dir, remove_socket, narrow_socket,
  open_socket, narrow_dir, listen,
}

-- On each endpoint that listens, the directory is private.
unfoldable pub Guarded : List Endpoint → Type 0
Guarded [] = Unit
Guarded (e ∷ es) = (e.listening ≡ true → e.dir_mode ≡ some private_dir) × Guarded es

-- The last endpoint: with an error it does not listen; without one it does, on a private socket.
unfoldable pub Opens : List Endpoint → Error → Type 0
Opens [] x = ⊥
Opens (e ∷ es) (some x) = e.listening ≡ false
Opens (e ∷ es) none =
    (e.listening ≡ true) × (e.dir_mode ≡ some private_dir) × (e.socket_mode ≡ some private_socket)

-- Whatever its calls come to, Listen accepts connections at no moment in a directory that is not of
-- mode 0700. If it reports an error it does not listen; if it reports none it listens, and the socket
-- has mode 0600.
pub listen_lem :
    (c : Calls) (e : Endpoint)
    → e.listening ≡ false
    → Guarded (listen c e).0 × Opens (listen c e).0 (listen c e).1
unfolding Guarded Opens listen narrow_dir open_socket narrow_socket make_dir remove_socket
listen_lem c e h = ground arith
