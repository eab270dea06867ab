-- ===== src/Protocol/Paths.antt =====
-- Where pkg/protocol/protocol.go keeps the files of the daemon and of the engines.
use uni_chat_sdk.Prelude.{Bytes, text, ◌==◌, List, [], ◌∷◌, if◌then◌else◌, trim_space}

-- os.Getenv, os.UserHomeDir with its error ignored, and filepath.Join.
pub record System : Type 0 where
  pub getenv : Bytes → Bytes
  pub home : Bytes
  pub join : List Bytes → Bytes

module _ (sys : System) where
  -- A variable that is not blank, or else a default.
  abbrev overridden : Bytes → Bytes → Bytes
  overridden name other = let v = trim_space (sys.getenv name) in if v == [] then other else v

  unfoldable pub dir : Bytes
  dir = overridden (text "UNI_CHAT_DIR") (sys.join (sys.home ∷ text ".uni-chat" ∷ []))

  unfoldable pub socket_path : Bytes
  unfolding dir
  socket_path = overridden (text "UNI_CHAT_SOCK") (sys.join (dir ∷ text "uni-chatd.sock" ∷ []))

  unfoldable pub engines_path : Bytes
  unfolding dir
  engines_path = sys.join (dir ∷ text "engines.json" ∷ [])

  unfoldable pub engine_dir : Bytes → Bytes
  unfolding dir
  engine_dir name = sys.join (dir ∷ text "engines" ∷ name ∷ [])
