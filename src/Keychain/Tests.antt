-- ===== src/Keychain/Tests.antt =====
-- Runs of keychain on a vault that is a map.
use uni_chat_sdk.Prelude.{
  Bytes, text, ◌≡◌, ◌≢◌, ◌==◌, ==_iff, ==_refl, ◌&&◌, Option, none, some, arith, refl, [],
  if◌then◌else◌,
}
use uni_chat_sdk.Keychain.{
  value, no_shim, service, trim_newlines, drop_newlines, get_token, set_token,
}
use uni_chat_sdk.Keychain.Darwin.{
  Status, success, item_not_found, Security, darwin, keychain_set, platform_set_token,
}
use uni_chat_sdk.Keychain.Tokens.{IsSecurity, set_token-get_token}

-- The data of a service and an account.
abbrev Vault : Type 0
Vault = Bytes → Bytes → Option Bytes

abbrev stored : Vault → Bytes → Bytes → Bytes → Vault
stored v s a d t b = if (t == s) && (b == a) then some d else v t b

abbrev of_item : Option Bytes → Status × Bytes
of_item none = (item_not_found, [])
of_item (some d) = (success, d)

abbrev updated : Option Bytes → Vault → Bytes → Bytes → Bytes → Vault × Status
updated none v s a d = (v, item_not_found)
updated (some old) v s a d = (stored v s a d, success)

abbrev map_security : Security Vault
map_security = record {
  copy_matching = λ v s a. of_item (v s a);
  update = λ v s a d. updated (v s a) v s a d;
  add = λ v s a d. (stored v s a d, success);
  delete = λ v s a. (v, item_not_found);
}

map_security-IsSecurity : IsSecurity map_security (λ v s a. v s a)
map_security-IsSecurity = record {
  copy_some = λ v s a d h. ground (arith, h);
  update_success = λ v s a d h. ground (arith, h, ==_refl s, ==_refl a);
  update_other = λ v s a d b n. ground (arith, n, ==_iff b a);
  add_success = λ v s a d h. ground (arith, ==_refl s, ==_refl a);
  add_other = λ v s a d b n. ground (arith, n, ==_iff b a);
}

abbrev nothing : Vault
nothing s a = none

abbrev account : Bytes
account = text "mattermost-token"

abbrev token : Bytes
token = text "s3cret\n"

token-stored :
    set_token no_shim (darwin map_security) nothing account token
    ≡ some (stored nothing service account token, none)
unfolding set_token no_shim platform_set_token keychain_set
token-stored = refl

token-trimmed : trim_newlines token ≡ text "s3cret"
unfolding trim_newlines drop_newlines
token-trimmed = refl

set_token-get_token_example :
    (get_token no_shim (darwin map_security) (stored nothing service account token) account
      ≡ value (trim_newlines token))
    × ((b : Bytes)
        → b ≢ account
        → stored nothing service account token service b ≡ nothing service b)
set_token-get_token_example =
    set_token-get_token map_security (λ v s a. v s a) map_security-IsSecurity nothing
      (stored nothing service account token) account token token-stored
