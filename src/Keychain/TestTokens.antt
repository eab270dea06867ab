-- ===== src/Keychain/TestTokens.antt =====
-- What a token of keychain/test_shim.go is after it was stored.
use uni_chat_sdk.Prelude.{
  Bytes, ◌≡◌, refl, sym, ap, Bool, true, false, ◌&&◌, ◌==◌, ==_refl, Option, none, some, [], ◌∷◌,
  arith, if◌then◌else◌, ◌>>=◌, ◌↔◌,
}
use uni_chat_sdk.Prelude.GoMap.{
  GoMap, Table, nil, made, lookup, without, lookup-without, index, store, put,
}
use uni_chat_sdk.Json.Values.{Value}
use uni_chat_sdk.Json.Folding.{is_utf8}
use uni_chat_sdk.Json.Codecs.{text_codec}
use uni_chat_sdk.Json.Fields.{bind_some}
use uni_chat_sdk.Json.Maps.{sort_keys, encode_map, decode_map, is_missing, is_nil_map}
use uni_chat_sdk.Json.Entries.{
  has_each_once, are_valid_entries, lookup-sort_keys, without-once, without-valid, decode_map-once,
  decode_map-written,
}
use uni_chat_sdk.Keychain.{value, Platform, get_token, set_token}
use uni_chat_sdk.Keychain.TestShim.{
  Read, missing, failed, content, Files, read_tokens, find_token, test_token, old_tokens,
  write_tokens, set_test_token, test_shim,
}

-- What is documented of os.WriteFile: what a write without an error has written is what a read gives.
pub record IsFiles {Vault : Type 0} (files : Files Vault) (path : Bytes) : Type 0 where
  pub write_read :
      (v : Vault) (b : Bytes)
      → (files.write v path b).1 ≡ none
      → files.read (files.write v path b).0 path ≡ content b

-- What is documented of encoding/json: the text of a map is parsed as its value.
unfoldable pub IsText : {Vault : Type 0} → Files Vault → GoMap Bytes → Type 0
IsText files tokens =
    (u : Value) → encode_map text_codec tokens ≡ some u → files.parse (files.print u) ≡ some u

-- All accounts and tokens are UTF-8.
unfoldable pub is_text : GoMap Bytes → Bool
is_text nil = true
is_text (made t) = are_valid_entries text_codec t

module _ {Vault : Type 0} (files : Files Vault) (path : Bytes) where
  read_tokens-once :
      (b : Bytes) (t : Table Bytes)
      → read_tokens files path b ≡ value (made t)
      → has_each_once t ≡ true
  unfolding read_tokens
  read_tokens-once b t h =
      let found : (files.parse b >>= decode_map text_codec) ≡ some (made t) = ground (arith, h) in
      let (w, p, reads) = bind_some (files.parse b) (decode_map text_codec) (made t) found in
      decode_map-once text_codec w t reads

  old_tokens-once :
      (v : Vault) (t : Table Bytes)
      → old_tokens files path v ≡ value (made t)
      → has_each_once t ≡ true
  unfolding old_tokens has_each_once
  old_tokens-once v t h = found (files.read v path) refl
    where
      found : (r : Read) → files.read v path ≡ r → has_each_once t ≡ true
      found (missing e) q = ground (arith, q, h)
      found (failed e) q = ground (arith, q, h)
      found (content b) q = read_tokens-once b t (ground (arith, q, h))

  find_token-new :
      (t : Table Bytes) (account token b : Bytes)
      → has_each_once t ≡ true
      → find_token b (made (sort_keys ((account, token) ∷ without account t)))
        ≡ (if account == b then value token else find_token b (made t))
  unfolding find_token index has_each_once is_missing lookup
  find_token-new t account token b h = ground (
    arith,
    lookup-sort_keys b ((account, token) ∷ without account t),
    lookup-without account b t,
    lookup-without account account t,
    ==_refl account,
    without-once account t h,
  )

  new_entries-valid :
      (t : Table Bytes) (account token : Bytes)
      → are_valid_entries text_codec t ≡ true
      → (is_utf8 account && is_utf8 token) ≡ true
      → are_valid_entries text_codec ((account, token) ∷ without account t) ≡ true
  unfolding are_valid_entries
  new_entries-valid t account token h u = ground (arith, without-valid text_codec account t h)

  new_entries-once :
      (t : Table Bytes) (account token : Bytes)
      → has_each_once t ≡ true
      → has_each_once ((account, token) ∷ without account t) ≡ true
  unfolding has_each_once is_missing
  new_entries-once t account token h =
      ground (arith, without-once account t h, lookup-without account account t, ==_refl account)

  test_token-content :
      (w : Vault) (b account : Bytes) (tokens : GoMap Bytes)
      → (path == []) ≡ false
      → files.read w path ≡ content b
      → read_tokens files path b ≡ value tokens
      → test_token files path w account ≡ some (find_token account tokens)
  unfolding test_token
  test_token-content w b account tokens named e f = ground arith

  module _ (ok : IsFiles files path) (named : (path == []) ≡ false) where
    -- After a write of a table without an error, each account has what the table has for it.
    written :
        (v w : Vault) (t : Table Bytes) (account : Bytes)
        → has_each_once t ≡ true
        → are_valid_entries text_codec t ≡ true
        → IsText files (made t)
        → write_tokens files path v (made t) ≡ (w, none)
        → test_token files path w account ≡ some (find_token account (made (sort_keys t)))
    unfolding write_tokens read_tokens IsText
    written v w t account once valid printed h =
        let (u, wrote, reads) =
          bind_some (encode_map text_codec (made t)) (decode_map text_codec) (made (sort_keys t))
            (decode_map-written text_codec t once valid) in
        let result : files.write v path (files.print u) ≡ (w, none) = ground (arith, wrote, h) in
        let here : (files.write v path (files.print u)).0 ≡ w = ap (λ p. p.0) result in
        let content_lem : files.read w path ≡ content (files.print u) =
          rw (sym here) (ok.write_read v (files.print u) (ap (λ p. p.1) result)) in
        test_token-content w (files.print u) account (made (sort_keys t)) named content_lem
          (ground (arith, printed u wrote, reads))

    -- A token that is stored was written over a table.
    set_test_token-made :
        (v w : Vault) (account token : Bytes) (t : Table Bytes)
        → old_tokens files path v ≡ value (made t)
        → set_test_token files path v account token ≡ some (some (w, none))
        → write_tokens files path v (made ((account, token) ∷ without account t)) ≡ (w, none)
    unfolding set_test_token store
    set_test_token-made v w account token t old h = ground (arith, named, old, h)

    set_test_token-nil :
        (v w : Vault) (account token : Bytes)
        → old_tokens files path v ≡ value nil
        → set_test_token files path v account token ≡ some (some (w, none))
        → ⊥
    unfolding set_test_token store
    set_test_token-nil v w account token old h = ground (arith, named, old, h)

    made_kept :
        (platform : Platform Vault) (v w : Vault) (account token : Bytes) (t : Table Bytes)
        → old_tokens files path v ≡ value (made t)
        → are_valid_entries text_codec t ≡ true
        → (is_utf8 account && is_utf8 token) ≡ true
        → IsText files (put (made t) account token)
        → set_test_token files path v account token ≡ some (some (w, none))
        → (b : Bytes)
        → get_token (test_shim files path) platform w b
          ≡ (if account == b then value token else find_token b (made t))
    unfolding get_token test_shim put
    made_kept platform v w account token t old texts new printed h b =
        let once = old_tokens-once v t old in
        let answer =
          written v w ((account, token) ∷ without account t) b
            (new_entries-once t account token once) (new_entries-valid t account token texts new)
            printed (set_test_token-made v w account token t old h) in
        ground (arith, answer, find_token-new t account token b once)

    kept :
        (platform : Platform Vault) (v w : Vault) (account token : Bytes) (tokens : GoMap Bytes)
        → old_tokens files path v ≡ value tokens
        → is_text tokens ≡ true
        → (is_utf8 account && is_utf8 token) ≡ true
        → IsText files (put tokens account token)
        → set_test_token files path v account token ≡ some (some (w, none))
        → (b : Bytes)
        → get_token (test_shim files path) platform w b
          ≡ (if account == b then value token else find_token b tokens)
    unfolding is_text
    kept platform v w account token nil old texts new printed h b =
        absurd (set_test_token-nil v w account token old h)
    kept platform v w account token (made t) old texts new printed h b =
        made_kept platform v w account token t old texts new printed h b

    panics_iff :
        (v : Vault) (account token : Bytes) (tokens : GoMap Bytes)
        → old_tokens files path v ≡ value tokens
        → (set_test_token files path v account token ≡ some none) ↔ (is_nil_map tokens ≡ true)
    unfolding set_test_token store
    panics_iff v account token nil old = ((λ h. refl), λ h. ground (arith, named, old))
    panics_iff v account token (made t) old =
        ((λ h. absurd (ground (arith, named, old, h))), λ h. absurd cc)

    answers :
        (v : Vault) (account token : Bytes) (tokens : GoMap Bytes)
        → old_tokens files path v ≡ value tokens
        → (r : Option (Vault × Option Bytes)) × (set_test_token files path v account token ≡ some r)
    unfolding set_test_token
    answers v account token tokens old = (
      store tokens account token >>= λ new. some (write_tokens files path v new),
      ground (arith, named, old),
    )

    -- In a test build whose file is named and holds a map of UTF-8 tokens, or does not exist, and with a
    -- file system and JSON texts as documented: storing a UTF-8 token panics exactly if the file holds
    -- `null`; if it reports no error, then each account is read as the token, if it is the one that was
    -- stored, and as what the file had for it, if it is another; the key store plays no role.
    pub set_token-test_shim :
        (platform : Platform Vault) (v : Vault) (account token : Bytes) (tokens : GoMap Bytes)
        → old_tokens files path v ≡ value tokens
        → is_text tokens ≡ true
        → (is_utf8 account && is_utf8 token) ≡ true
        → IsText files (put tokens account token)
        → let set = set_token (test_shim files path) platform v account token in
          ((set ≡ none) ↔ (is_nil_map tokens ≡ true))
          × ((w : Vault)
              → set ≡ some (w, none)
              → (b : Bytes)
              → get_token (test_shim files path) platform w b
                ≡ (if account == b then value token else find_token b tokens))
    unfolding set_token test_shim
    set_token-test_shim platform v account token tokens old texts new printed =
        let (there, back) = panics_iff v account token tokens old in
        let (r, e) = answers v account token tokens old in
        (
          ((λ h. there (ground (arith, named, h))), λ h. ground (arith, back h)),
          λ w h b.
              kept platform v w account token tokens old texts new printed (ground (arith, e, h)) b,
        )
