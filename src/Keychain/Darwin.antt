-- ===== src/Keychain/Darwin.antt =====
-- keychain/keychain_darwin.go: the key store of macOS, through the Security framework. Services and
-- accounts have no zero byte, which would end them in C.
use uni_chat_sdk.Prelude.{Bytes, text, ◌++◌, Option, none, some, []}
use uni_chat_sdk.Keychain.{Result, error, value, Platform}

-- An OSStatus: errSecSuccess, errSecItemNotFound, or another one by its number as text.
pub data Status : Type 0 where
  success : Status
  item_not_found : Status
  other : Bytes → Status

-- SecItemCopyMatching, SecItemUpdate, SecItemAdd and SecItemDelete on generic passwords.
pub record Security (Vault : Type 0) : Type 0 where
  pub copy_matching : Vault → Bytes → Bytes → Status × Bytes
  pub update : Vault → Bytes → Bytes → Bytes → Vault × Status
  pub add : Vault → Bytes → Bytes → Bytes → Vault × Status
  pub delete : Vault → Bytes → Bytes → Vault × Status

abbrev pub status_text : Status → Bytes
status_text success = text "0"
status_text item_not_found = text "-25300"
status_text (other n) = n

abbrev pub status_error : Status → Bytes
status_error s = text "security.framework status " ++ status_text s

abbrev pub error_of : Status → Option Bytes
error_of success = none
error_of item_not_found = some (status_error item_not_found)
error_of (other n) = some (status_error (other n))

module _ {Vault : Type 0} (sec : Security Vault) where
  -- keychain_set: an update, or an addition where there is nothing to update.
  unfoldable pub keychain_set : Vault → Bytes → Bytes → Bytes → Vault × Status
  keychain_set v service account token =
      let (w, status) = sec.update v service account token in
      elim status [
        | item_not_found ↦ sec.add w service account token
        | success ↦ (w, success)
        | other n ↦ (w, other n)
      ]

  -- keychain_get: the data where the copy succeeds.
  unfoldable pub keychain_get : Vault → Bytes → Bytes → Status × Bytes
  keychain_get v service account =
      let (status, out) = sec.copy_matching v service account in
      elim status [
        | success ↦ (success, out)
        | item_not_found ↦ (item_not_found, [])
        | other n ↦ (other n, [])
      ]

  unfoldable pub keychain_delete : Vault → Bytes → Bytes → Vault × Status
  keychain_delete v service account = sec.delete v service account

  unfoldable pub platform_get_token : Vault → Bytes → Bytes → Result Bytes
  platform_get_token v service account =
      let (status, out) = keychain_get v service account in
      elim status [
        | success ↦ value out
        | item_not_found ↦ error (status_error item_not_found)
        | other n ↦ error (status_error (other n))
      ]

  unfoldable pub platform_set_token : Vault → Bytes → Bytes → Bytes → Vault × Option Bytes
  platform_set_token v service account token =
      let (w, status) = keychain_set v service account token in (w, error_of status)

  -- An item that is already absent is no error.
  unfoldable pub platform_delete_token : Vault → Bytes → Bytes → Vault × Option Bytes
  platform_delete_token v service account =
      let (w, status) = keychain_delete v service account in
      elim status [
        | success ↦ (w, none)
        | item_not_found ↦ (w, none)
        | other n ↦ (w, some (status_error (other n)))
      ]

  abbrev pub darwin : Platform Vault
  darwin = record { get = platform_get_token; set = platform_set_token }
