-- ===== src/Json/Entries.antt =====
-- What a map of any table holds after encoding/json wrote it and read it back.
use uni_chat_sdk.Prelude.{
  Bytes, ◌≡◌, refl, Bool, true, ◌&&◌, ◌==◌, ==_iff, some, [], ◌∷◌, arith, if◌then◌else◌, ◌>>=◌,
}
use uni_chat_sdk.Prelude.GoMap.{Table, made, lookup, without, lookup-without}
use uni_chat_sdk.Json.Values.{
  Value, null, bool, number, str, array, object, Members, no_members, member,
}
use uni_chat_sdk.Json.Folding.{to_utf8, is_utf8}
use uni_chat_sdk.Json.Codecs.{Codec}
use uni_chat_sdk.Json.Fields.{bind_some}
use uni_chat_sdk.Json.Maps.{
  is_missing, insert_key, sort_keys, write_entries, read_entries, encode_map, decode_map,
}

module _ {V : Type 0} where
  -- No key stands in the table twice.
  unfoldable pub has_each_once : Table V → Bool
  has_each_once [] = true
  has_each_once ((k, v) ∷ t) = is_missing (lookup k t) && has_each_once t

  lookup-insert_key :
      (k j : Bytes) (v : V) (t : Table V)
      → is_missing (lookup k t) ≡ true
      → lookup j (insert_key k v t) ≡ (if k == j then some v else lookup j t)
  unfolding insert_key lookup is_missing
  lookup-insert_key k j v [] h = refl
  lookup-insert_key k j v ((i, w) ∷ t) h =
      ground (arith, lookup-insert_key k j v t, ==_iff i k, ==_iff i j, ==_iff k j)

  insert_key-once :
      (k : Bytes) (v : V) (t : Table V)
      → is_missing (lookup k t) ≡ true
      → has_each_once t ≡ true
      → has_each_once (insert_key k v t) ≡ true
  unfolding insert_key has_each_once lookup is_missing
  insert_key-once k v [] h a = refl
  insert_key-once k v ((i, w) ∷ t) h a =
      ground (arith, insert_key-once k v t, lookup-insert_key k i v t, ==_iff i k, ==_iff k i)

  pub lookup-sort_keys :
      (j : Bytes) (t : Table V) → has_each_once t ≡ true → lookup j (sort_keys t) ≡ lookup j t
  unfolding sort_keys has_each_once lookup
  lookup-sort_keys j [] h = refl
  lookup-sort_keys j ((k, v) ∷ t) h =
      ground
        (arith, lookup-sort_keys j t, lookup-sort_keys k t, lookup-insert_key k j v (sort_keys t))

  sort_keys-once : (t : Table V) → has_each_once t ≡ true → has_each_once (sort_keys t) ≡ true
  unfolding sort_keys has_each_once
  sort_keys-once [] h = refl
  sort_keys-once ((k, v) ∷ t) h =
      ground (arith, sort_keys-once t, lookup-sort_keys k t, insert_key-once k v (sort_keys t))

  pub without-once :
      (k : Bytes) (t : Table V) → has_each_once t ≡ true → has_each_once (without k t) ≡ true
  unfolding has_each_once without is_missing
  without-once k [] h = refl
  without-once k ((j, v) ∷ t) h = ground (arith, without-once k t, lookup-without k j t, ==_iff k j)

module _ {V : Type 0} (c : Codec V) where
  -- Each key is UTF-8, and each entry is read back as it is written.
  unfoldable pub are_valid_entries : Table V → Bool
  are_valid_entries [] = true
  are_valid_entries ((k, v) ∷ t) = is_utf8 k && c.is_valid v && are_valid_entries t

  pub without-valid :
      (k : Bytes) (t : Table V)
      → are_valid_entries t ≡ true
      → are_valid_entries (without k t) ≡ true
  unfolding are_valid_entries without
  without-valid k [] h = refl
  without-valid k ((j, v) ∷ t) h = ground (arith, without-valid k t)

  insert_key-valid :
      (k : Bytes) (v : V) (t : Table V)
      → are_valid_entries t ≡ true
      → (is_utf8 k && c.is_valid v) ≡ true
      → are_valid_entries (insert_key k v t) ≡ true
  unfolding insert_key are_valid_entries
  insert_key-valid k v [] h a = ground arith
  insert_key-valid k v ((i, w) ∷ t) h a = ground (arith, insert_key-valid k v t)

  sort_keys-valid :
      (t : Table V) → are_valid_entries t ≡ true → are_valid_entries (sort_keys t) ≡ true
  unfolding sort_keys are_valid_entries
  sort_keys-valid [] h = refl
  sort_keys-valid ((k, v) ∷ t) h =
      ground (arith, sort_keys-valid t, insert_key-valid k v (sort_keys t))

  read_entries-written :
      (t : Table V)
      → has_each_once t ≡ true
      → are_valid_entries t ≡ true
      → (write_entries c t >>= read_entries c) ≡ some t
  unfolding read_entries write_entries has_each_once are_valid_entries is_utf8
  read_entries-written [] a h = refl
  read_entries-written ((k, v) ∷ t) a h =
      let (w, encoded, decoded) =
        bind_some (c.encode v) c.decode v (c.decode-encode v (ground arith)) in
      let (ms, wrote, reads) =
        bind_some (write_entries c t) (read_entries c) t
          (read_entries-written t (ground arith) (ground arith)) in
      ground (arith, encoded, decoded, wrote, reads, ==_iff (to_utf8 k) k)

  -- A map that was read has each key once.
  pub read_entries-once :
      (ms : Members) (t : Table V) → read_entries c ms ≡ some t → has_each_once t ≡ true
  unfolding read_entries has_each_once
  read_entries-once no_members t h = ground arith
  read_entries-once (member k w ms) t h =
      let (v, decoded, rest) =
        bind_some (c.decode w)
          (λ v. read_entries c ms >>= λ u. some (if is_missing (lookup k u) then (k, v) ∷ u else u))
          t h in
      let (u, reads, same) =
        bind_some (read_entries c ms)
          (λ u. some (if is_missing (lookup k u) then (k, v) ∷ u else u)) t rest in
      ground (arith, same, read_entries-once ms u reads)

  pub decode_map-once :
      (w : Value) (t : Table V) → decode_map c w ≡ some (made t) → has_each_once t ≡ true
  unfolding decode_map
  decode_map-once null t h = absurd cc
  decode_map-once (object ms) t h =
      let (u, reads, same) = bind_some (read_entries c ms) (λ u. some (made u)) (made t) h in
      read_entries-once ms t (ground (arith, reads, same))
  decode_map-once (bool b) t h = absurd cc
  decode_map-once (number n) t h = absurd cc
  decode_map-once (str s) t h = absurd cc
  decode_map-once (array vs) t h = absurd cc

  pub decode_map-written :
      (t : Table V)
      → has_each_once t ≡ true
      → are_valid_entries t ≡ true
      → (encode_map c (made t) >>= decode_map c) ≡ some (made (sort_keys t))
  unfolding encode_map decode_map
  decode_map-written t a h =
      let (ms, wrote, reads) =
        bind_some (write_entries c (sort_keys t)) (read_entries c) (sort_keys t)
          (read_entries-written (sort_keys t) (sort_keys-once t a) (sort_keys-valid t h)) in
      ground (arith, wrote, reads)
