-- ===== src/Keychain/ShimTests.antt =====
-- Runs of keychain in a test build, on a file that is all there is.
use uni_chat_sdk.Prelude.{
  Bytes, text, ◌≡◌, ◌==◌, refl, true, false, ◌&&◌, Option, none, some, [], ◌↔◌, if◌then◌else◌,
}
use uni_chat_sdk.Prelude.GoMap.{empty, put, without, store}
use uni_chat_sdk.Json.Values.{Value, null, object, str, member, no_members}
use uni_chat_sdk.Json.Folding.{to_utf8, is_utf8}
use uni_chat_sdk.Json.Maps.{
  is_nil_map, encode_map, decode_map, sort_keys, insert_key, write_entries,
}
use uni_chat_sdk.Json.Entries.{are_valid_entries}
use uni_chat_sdk.Keychain.{value, get_token, set_token}
use uni_chat_sdk.Keychain.Unsupported.{no_key_store}
use uni_chat_sdk.Keychain.TestShim.{
  set_test_token, Read, missing, content, Files, find_token, old_tokens, read_tokens, test_shim,
}
use uni_chat_sdk.Keychain.TestTokens.{IsFiles, IsText, is_text, set_token-test_shim}

abbrev account : Bytes
account = text "mattermost-token"

abbrev token : Bytes
token = text "abc123"

abbrev path : Bytes
path = text "keychain.json"

abbrev printed : Bytes
printed = text "{\"mattermost-token\":\"abc123\"}"

abbrev one_token : Value
one_token = object (member account (str token) no_members)

abbrev read_file : Option Bytes → Read
read_file none = missing (text "no such file")
read_file (some b) = content b

-- The text of one value is known.
abbrev one_file : Files (Option Bytes)
one_file = record {
  read = λ v p. read_file v;
  write = λ v p b. (some b, none);
  print = λ v. printed;
  parse =
      λ b. if b == printed then some one_token else if b == text "null" then some null else none;
  complaint = λ b. text "invalid character";
}

one_file-IsFiles : IsFiles one_file path
one_file-IsFiles = record { write_read = λ v b h. refl }

one_token-IsText : IsText one_file (put empty account token)
unfolding IsText encode_map sort_keys insert_key write_entries put without to_utf8 ◌==◌
one_token-IsText u h = h

path_named : (path == []) ≡ false
unfolding ◌==◌
path_named = refl

texts_valid : (is_utf8 account && is_utf8 token) ≡ true
unfolding is_utf8 to_utf8 ◌==◌
texts_valid = refl

nothing_valid : is_text empty ≡ true
unfolding is_text are_valid_entries
nothing_valid = refl

no_file : old_tokens one_file path none ≡ value empty
unfolding old_tokens
no_file = refl

-- A file that holds `null` makes a stored token panic.
null_file :
    set_token (test_shim one_file path) no_key_store (some (text "null")) account token ≡ none
unfolding set_token test_shim set_test_token old_tokens read_tokens store ◌==◌ decode_map
null_file = refl

set_token-test_shim_example :
    let set = set_token (test_shim one_file path) no_key_store none account token in
    ((set ≡ none) ↔ (is_nil_map {V = Bytes} empty ≡ true))
    × ((w : Option Bytes)
        → set ≡ some (w, none)
        → (b : Bytes)
        → get_token (test_shim one_file path) no_key_store w b
          ≡ (if account == b then value token else find_token b empty))
set_token-test_shim_example =
    set_token-test_shim one_file path one_file-IsFiles path_named no_key_store none account token
      empty no_file nothing_valid texts_valid one_token-IsText
