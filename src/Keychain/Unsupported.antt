-- ===== src/Keychain/Unsupported.antt =====
-- keychain/keychain_unsupported.go: systems other than macOS have no key store.
use uni_chat_sdk.Prelude.{Bytes, text, Option, some, ◌≡◌, ◌++◌, refl}
use uni_chat_sdk.Keychain.{Result, error, Platform, no_shim, named, get_token, set_token}

abbrev pub required : Bytes
required = text "macOS Security.framework is required"

module _ {Vault : Type 0} where
  unfoldable pub unsupported_get_token : Vault → Bytes → Bytes → Result Bytes
  unsupported_get_token v service account = error required

  unfoldable pub unsupported_set_token : Vault → Bytes → Bytes → Bytes → Vault × Option Bytes
  unsupported_set_token v service account token = (v, some required)

  unfoldable pub unsupported_delete_token : Vault → Bytes → Bytes → Vault × Option Bytes
  unsupported_delete_token v service account = (v, some required)

  unfoldable pub no_key_store : Platform Vault
  no_key_store = record { get = unsupported_get_token; set = unsupported_set_token }

  -- There, in a build without the test shim, no token is read or stored.
  pub no_key_store_lem :
      (v : Vault) (account token : Bytes)
      → (get_token no_shim no_key_store v account
          ≡ error (text "no token in Keychain " ++ named account ++ required))
        × (set_token no_shim no_key_store v account token
            ≡ some (v, some (text "keychain write " ++ named account ++ required)))
  unfolding get_token set_token no_shim no_key_store unsupported_get_token unsupported_set_token
  no_key_store_lem v account token = (refl, refl)
