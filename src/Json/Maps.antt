-- ===== src/Json/Maps.antt =====
-- A Go map with string keys, as encoding/json writes and reads it: an object with sorted keys.
use uni_chat_sdk.Prelude.{
  Bytes, Bool, true, false, ◌&&◌, Option, none, some, [], ◌∷◌, if◌then◌else◌, ◌>>=◌, ◌≡◌, refl,
  arith, Ordering, compare_bytes, ==_iff,
}
use uni_chat_sdk.Prelude.Compare.{compare_bytes_refl}
use uni_chat_sdk.Prelude.GoMap.{GoMap, Table, nil, made, lookup}
use uni_chat_sdk.Json.Values.{
  Value, null, bool, number, str, array, object, Members, no_members, member,
}
use uni_chat_sdk.Json.Folding.{to_utf8, is_utf8}
use uni_chat_sdk.Json.Codecs.{Codec}
use uni_chat_sdk.Json.Fields.{bind_some}

unfoldable pub is_before : Bytes → Bytes → Bool
is_before a b = elim (compare_bytes a b) [
  | Ordering.lt ↦ true
  | Ordering.eq ↦ false
  | Ordering.gt ↦ false
]

unfoldable pub is_missing : {V : Type 0} → Option V → Bool
is_missing none = true
is_missing (some v) = false

-- What `omitempty` leaves out: a nil map and one without keys.
abbrev pub map_empty : {V : Type 0} → GoMap V → Bool
map_empty nil = true
map_empty (made []) = true
map_empty (made (e ∷ t)) = false

abbrev pub is_nil_map : {V : Type 0} → GoMap V → Bool
is_nil_map nil = true
is_nil_map (made t) = false

pub nil_map_nil : {V : Type 0} (m : GoMap V) → is_nil_map m ≡ true → m ≡ nil
nil_map_nil nil h = refl
nil_map_nil (made t) h = absurd cc

module _ {V : Type 0} where
  unfoldable pub insert_key : Bytes → V → Table V → Table V
  insert_key k v [] = (k, v) ∷ []
  insert_key k v ((j, w) ∷ t) =
      let rest = insert_key k v t in if is_before k j then (k, v) ∷ (j, w) ∷ t else (j, w) ∷ rest

  unfoldable pub sort_keys : Table V → Table V
  sort_keys [] = []
  sort_keys ((k, v) ∷ t) = insert_key k v (sort_keys t)

  unfoldable pub is_below : Bytes → Table V → Bool
  is_below k [] = true
  is_below k ((j, w) ∷ t) = is_before k j && is_below k t

  insert_key_below :
      (k : Bytes) (v : V) (t : Table V) → is_below k t ≡ true → insert_key k v t ≡ (k, v) ∷ t
  unfolding insert_key is_below
  insert_key_below k v [] h = refl
  insert_key_below k v ((j, w) ∷ t) h = ground arith

  lookup_below : (k : Bytes) (t : Table V) → is_below k t ≡ true → is_missing (lookup k t) ≡ true
  unfolding lookup is_below is_before is_missing
  lookup_below k [] h = refl
  lookup_below k ((j, w) ∷ t) h = ground (arith, lookup_below k t, ==_iff j k, compare_bytes_refl k)

module _ {V : Type 0} (c : Codec V) where
  unfoldable pub write_entries : Table V → Option Members
  write_entries [] = some no_members
  write_entries ((k, v) ∷ t) =
      c.encode v >>= λ w. write_entries t >>= λ ms. some (member (to_utf8 k) w ms)

  -- Of two members with the same key the later one counts.
  unfoldable pub read_entries : Members → Option (Table V)
  read_entries no_members = some []
  read_entries (member k w ms) = c.decode w >>= λ v.
      read_entries ms >>= λ t. some (if is_missing (lookup k t) then (k, v) ∷ t else t)

  unfoldable pub encode_map : GoMap V → Option Value
  encode_map nil = some null
  encode_map (made t) = write_entries (sort_keys t) >>= λ ms. some (object ms)

  unfoldable pub decode_map : Value → Option (GoMap V)
  decode_map null = some nil
  decode_map (object ms) = read_entries ms >>= λ t. some (made t)
  decode_map (bool b) = none
  decode_map (number n) = none
  decode_map (str s) = none
  decode_map (array vs) = none

  -- The table of a map, of which no order is known, listed by its keys.
  unfoldable pub is_listed : Table V → Bool
  is_listed [] = true
  is_listed ((k, v) ∷ t) = is_below k t && is_utf8 k && c.is_valid v && is_listed t

  unfoldable pub map_valid : GoMap V → Bool
  map_valid nil = true
  map_valid (made t) = is_listed t

  sort_keys_listed : (t : Table V) → is_listed t ≡ true → sort_keys t ≡ t
  unfolding sort_keys is_listed
  sort_keys_listed [] h = refl
  sort_keys_listed ((k, v) ∷ t) h = ground (arith, sort_keys_listed t, insert_key_below k v t)

  read_entries-write_entries :
      (t : Table V) → is_listed t ≡ true → (write_entries t >>= read_entries) ≡ some t
  unfolding read_entries write_entries is_listed is_utf8
  read_entries-write_entries [] h = refl
  read_entries-write_entries ((k, v) ∷ t) h =
      let (w, encoded, decoded) =
        bind_some (c.encode v) c.decode v (c.decode-encode v (ground arith)) in
      let (ms, wrote, reads) =
        bind_some (write_entries t) read_entries t (read_entries-write_entries t (ground arith)) in
      ground (arith, encoded, decoded, wrote, reads, ==_iff (to_utf8 k) k, lookup_below k t)

  pub decode_map-encode_map :
      (m : GoMap V) → map_valid m ≡ true → (encode_map m >>= decode_map) ≡ some m
  unfolding encode_map decode_map map_valid
  decode_map-encode_map nil h = refl
  decode_map-encode_map (made t) h =
      let (ms, wrote, reads) =
        bind_some (write_entries t) read_entries t (read_entries-write_entries t h) in
      ground (arith, sort_keys_listed t, wrote, reads)

  abbrev pub map_codec : Codec (GoMap V)
  map_codec = record {
    encode = encode_map;
    decode = decode_map;
    zero = nil;
    is_empty = map_empty;
    is_zero = is_nil_map;
    is_valid = map_valid;
    decode-encode = decode_map-encode_map;
    zero_lem = nil_map_nil;
  }
