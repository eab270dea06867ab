-- ===== src/Keychain.antt =====
-- keychain: the tokens of the engines in the platform's key store.
pub mod Darwin
pub mod Unsupported
pub mod Tokens
pub mod TestShim
pub mod TestTokens
mod ShimTests
mod Tests
use uni_chat_sdk.Prelude.{
  ℕ, eqb, Bytes, text, ◌==◌, Bool, true, false, Option, none, some, List, [], ◌∷◌, ◌++◌,
  if◌then◌else◌,
}
use mathlib.Core.List.{reverse}

-- A call that gives a value or the text of an error.
pub data Result (A : Type 0) : Type 0 where
  error : Bytes → Result A
  value : A → Result A

-- What keychain.go calls on its platform; `Vault` is the state of the key store.
pub record Platform (Vault : Type 0) : Type 0 where
  pub get : Vault → Bytes → Bytes → Result Bytes
  pub set : Vault → Bytes → Bytes → Bytes → Vault × Option Bytes

-- What the test shim answers in its place, or `none` to pass the call on. An answer of `set` that is
-- `none` is a panic.
pub record Shim (Vault : Type 0) : Type 0 where
  pub get : Vault → Bytes → Option (Result Bytes)
  pub set : Vault → Bytes → Bytes → Option (Option (Vault × Option Bytes))

-- The build without the shim: test_shim_stub.go.
unfoldable pub no_shim : {Vault : Type 0} → Shim Vault
no_shim = record { get = λ v account. none; set = λ v account token. none }

abbrev pub service : Bytes
service = text "uni-chat"

unfoldable pub drop_newlines : Bytes → Bytes
drop_newlines [] = []
drop_newlines (c ∷ cs) = let rest = drop_newlines cs in if eqb c 10 then rest else c ∷ cs

-- strings.TrimRight(out, "\n")
unfoldable pub trim_newlines : Bytes → Bytes
trim_newlines s = reverse (drop_newlines (reverse s))

abbrev pub named : Bytes → Bytes
named account = text "(service=uni-chat account=" ++ account ++ text "): "

module _ {Vault : Type 0} (shim : Shim Vault) (platform : Platform Vault) where
  unfoldable pub get_token : Vault → Bytes → Result Bytes
  get_token v account = elim (shim.get v account) [
    | some r ↦ r
    | none ↦ elim (platform.get v service account) [
      | error e ↦ error (text "no token in Keychain " ++ named account ++ e)
      | value out ↦ value (trim_newlines out)
    ]
  ]

  -- `none` is a panic.
  unfoldable pub set_token : Vault → Bytes → Bytes → Option (Vault × Option Bytes)
  set_token v account token = elim (shim.set v account token) [
    | some r ↦ r
    | none ↦
        let (w, e) = platform.set v service account token in
        some
          (w, elim e [ none ↦ none | some x ↦ some (text "keychain write " ++ named account ++ x) ])
  ]
