-- ===== src/Keychain/TestShim.antt =====
-- keychain/test_shim.go: in a test build the tokens stand in a JSON file, and no key store is used.
use uni_chat_sdk.Prelude.{Bytes, text, ◌++◌, ◌==◌, Option, none, some, [], if◌then◌else◌, ◌>>=◌}
use uni_chat_sdk.Prelude.GoMap.{GoMap, empty, index, store}
use uni_chat_sdk.Json.Values.{Value}
use uni_chat_sdk.Json.Codecs.{text_codec}
use uni_chat_sdk.Json.Maps.{encode_map, decode_map}
use uni_chat_sdk.Keychain.{Result, error, value, Shim}

-- What os.ReadFile comes to: `missing` is an error for which os.IsNotExist holds. Each error has its text.
pub data Read : Type 0 where
  missing failed content : Bytes → Read

-- The file system, and encoding/json between texts and values. `complaint` is the text of the error
-- of a text that json.Unmarshal does not read as a map of strings.
pub record Files (Vault : Type 0) : Type 0 where
  pub read : Vault → Bytes → Read
  pub write : Vault → Bytes → Bytes → Vault × Option Bytes
  pub print : Value → Bytes
  pub parse : Bytes → Option Value
  pub complaint : Bytes → Bytes

abbrev pub disabled : Bytes
disabled = text "test keychain is disabled: UNI_CHAT_TEST_KEYCHAIN must point to a disposable file"

unfoldable pub find_token : Bytes → GoMap Bytes → Result Bytes
find_token account tokens = elim (index tokens account) [
  | none ↦ error (text "test keychain has no account " ++ account)
  | some token ↦ value token
]

-- `path` is the value of UNI_CHAT_TEST_KEYCHAIN.
module _ {Vault : Type 0} (files : Files Vault) (path : Bytes) where
  -- json.Unmarshal into a map that is nil or empty; `null` makes it nil.
  unfoldable pub read_tokens : Bytes → Result (GoMap Bytes)
  read_tokens b = elim (files.parse b >>= decode_map text_codec) [
    | none ↦ error (text "test keychain decode: " ++ files.complaint b)
    | some tokens ↦ value tokens
  ]

  unfoldable pub test_token : Vault → Bytes → Option (Result Bytes)
  test_token v account = if path == [] then some (error disabled) else elim (files.read v path) [
    | missing e ↦ some (error e)
    | failed e ↦ some (error e)
    | content b ↦ elim (read_tokens b) [
      | error e ↦ some (error e)
      | value tokens ↦ some (find_token account tokens)
    ]
  ]

  -- What SetToken finds: a file that does not exist has no tokens.
  unfoldable pub old_tokens : Vault → Result (GoMap Bytes)
  old_tokens v = elim (files.read v path) [
    | missing e ↦ value empty
    | failed e ↦ error e
    | content b ↦ read_tokens b
  ]

  unfoldable pub write_tokens : Vault → GoMap Bytes → Vault × Option Bytes
  write_tokens v tokens = elim (encode_map text_codec tokens) [
    | none ↦ (v, some (text "json: unsupported value"))
    | some w ↦ files.write v path (files.print w)
  ]

  -- The write to a nil map, of a file that holds `null`, is a panic.
  unfoldable pub set_test_token : Vault → Bytes → Bytes → Option (Option (Vault × Option Bytes))
  set_test_token v account token =
      if path == [] then some (some (v, some disabled)) else elim (old_tokens v) [
        | error e ↦ some (some (v, some e))
        | value tokens ↦ some (store tokens account token >>= λ new. some (write_tokens v new))
      ]

  unfoldable pub test_shim : Shim Vault
  test_shim = record { get = test_token; set = set_test_token }
