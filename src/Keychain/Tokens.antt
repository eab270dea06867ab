-- ===== src/Keychain/Tokens.antt =====
-- What a token of keychain is after it was stored and deleted.
use uni_chat_sdk.Prelude.{Bytes, ◌≡◌, ◌≢◌, Option, none, some, arith, sym}
use uni_chat_sdk.Keychain.{value, no_shim, service, trim_newlines, get_token, set_token}
use uni_chat_sdk.Keychain.Darwin.{
  success, Security, keychain_get, keychain_set, platform_get_token, platform_set_token, darwin,
}

-- What is documented of the framework's calls, where `item` is what the vault holds for a service and
-- an account: an update or an addition that succeeds stores the data for the one item, an update finds
-- nothing exactly where there is no item, a failure changes nothing, and a copy gives the data.
pub record IsSecurity {Vault : Type 0} (sec : Security Vault)
    (item : Vault → Bytes → Bytes → Option Bytes) : Type 0 where
  pub copy_some :
      (v : Vault) (s a d : Bytes) → item v s a ≡ some d → sec.copy_matching v s a ≡ (success, d)
  pub update_success :
      (v : Vault) (s a d : Bytes)
      → (sec.update v s a d).1 ≡ success
      → item (sec.update v s a d).0 s a ≡ some d
  pub update_other :
      (v : Vault) (s a d : Bytes) (b : Bytes) → b ≢ a → item (sec.update v s a d).0 s b ≡ item v s b
  pub add_success :
      (v : Vault) (s a d : Bytes)
      → (sec.add v s a d).1 ≡ success
      → item (sec.add v s a d).0 s a ≡ some d
  pub add_other :
      (v : Vault) (s a d : Bytes) (b : Bytes) → b ≢ a → item (sec.add v s a d).0 s b ≡ item v s b

module _ {Vault : Type 0} (sec : Security Vault) (item : Vault → Bytes → Bytes → Option Bytes)
    (ok : IsSecurity sec item) where
  set-item :
      (v : Vault) (a d : Bytes)
      → (platform_set_token sec v service a d).1 ≡ none
      → item (platform_set_token sec v service a d).0 service a ≡ some d
  unfolding platform_set_token keychain_set
  set-item v a d h =
      let u = ok.update_success v service a d in
      let x = ok.add_success (sec.update v service a d).0 service a d in ground (arith, h, u, x)

  -- Without the shim, a token is stored in the vault that the platform leaves.
  set_token-platform :
      (v w : Vault) (account token : Bytes)
      → set_token no_shim (darwin sec) v account token ≡ some (w, none)
      → ((platform_set_token sec v service account token).0 ≡ w)
        × ((platform_set_token sec v service account token).1 ≡ none)
  unfolding set_token no_shim
  set_token-platform v w account token h = (ground (arith, h), ground (arith, h))

  get_token-item :
      (w : Vault) (account token : Bytes)
      → item w service account ≡ some token
      → get_token no_shim (darwin sec) w account ≡ value (trim_newlines token)
  unfolding get_token no_shim platform_get_token keychain_get
  get_token-item w account token h = ground (arith, ok.copy_some w service account token h)

  set-other :
      (v : Vault) (a d b : Bytes)
      → b ≢ a
      → item (platform_set_token sec v service a d).0 service b ≡ item v service b
  unfolding platform_set_token keychain_set
  set-other v a d b n =
      let u = ok.update_other v service a d b n in
      let x = ok.add_other (sec.update v service a d).0 service a d b n in ground (arith, u, x)

  -- On macOS, in a build without the test shim, with a framework as documented: a token that is stored
  -- without an error is what the next read of its account gives, less the
  -- newlines at its end, and the items of all other accounts are as they were.
  pub set_token-get_token :
      (v w : Vault) (account token : Bytes)
      → set_token no_shim (darwin sec) v account token ≡ some (w, none)
      → (get_token no_shim (darwin sec) w account ≡ value (trim_newlines token))
        × ((b : Bytes) → b ≢ account → item w service b ≡ item v service b)
  set_token-get_token v w account token h =
      let (here, good) = set_token-platform v w account token h in
      (
        get_token-item w account token (rw (sym here) (set-item v account token good)),
        (λ b n. rw (sym here) (set-other v account token b n)),
      )
