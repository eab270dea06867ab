-- ===== src/Json/Structs.antt =====
-- A Go struct as encoding/json writes and reads it: an object, whose keys stand in the fields' order.
use uni_chat_sdk.Prelude.{Bytes, true, false, Option, none, some, ◌>>=◌, ◌≡◌, arith}
use uni_chat_sdk.Json.Values.{
  Value, null, bool, number, str, array, object, Members, no_members, member,
}
use uni_chat_sdk.Json.Folding.{fold_key}
use uni_chat_sdk.Json.Codecs.{Codec, never_zero}
use uni_chat_sdk.Json.Fields.{Fields, has_key, bind_some}

-- All fields of a struct, and what makes the struct of their values.
pub record Struct (T : Type 0) : Type 1 where
  pub Make : Type 0
  pub fields : Fields T Make
  pub make : Make
  pub formed : fields.is_formed ≡ true
  pub rebuilds : (t : T) → fields.rebuild make t ≡ t

abbrev pub struct_of :
    {T R : Type 0} (fs : Fields T R) (make : R)
    → fs.is_formed ≡ true
    → ((t : T) → fs.rebuild make t ≡ t)
    → Struct T
struct_of {R = R} fs r ok back = record {
  Make = R;
  fields = fs;
  make = r;
  formed = ok;
  rebuilds = back;
}

module _ {T : Type 0} (s : Struct T) where
  abbrev pub zero_struct : T
  zero_struct = s.fields.zeros s.make

  unfoldable pub encode_struct : T → Option Value
  encode_struct t = s.fields.write t >>= λ ms. some (object ms)

  unfoldable pub decode_struct : Value → Option T
  decode_struct (object ms) = s.fields.read s.make ms
  decode_struct null = some zero_struct
  decode_struct (bool b) = none
  decode_struct (number n) = none
  decode_struct (str b) = none
  decode_struct (array vs) = none

  pub decode_struct-encode_struct :
      (t : T) → s.fields.are_valid t ≡ true → (encode_struct t >>= decode_struct) ≡ some t
  unfolding encode_struct decode_struct
  decode_struct-encode_struct t valid =
      let (ms, wrote, reads) =
        bind_some (s.fields.write t) (s.fields.read s.make) (s.fields.rebuild s.make t)
          (s.fields.read-write s.formed s.make t valid) in
      ground (arith, wrote, reads, s.rebuilds t)

  abbrev pub struct_codec : Codec T
  struct_codec = record {
    encode = encode_struct;
    decode = decode_struct;
    zero = zero_struct;
    is_empty = λ t. false;
    is_zero = λ t. false;
    is_valid = s.fields.are_valid;
    decode-encode = decode_struct-encode_struct;
    zero_lem = λ t h. never_zero t zero_struct h;
  }

  pub decode_nothing : decode_struct (object no_members) ≡ some zero_struct
  unfolding decode_struct
  decode_nothing = s.fields.read_nothing s.make

  pub decode_foreign :
      (j : Bytes) (v : Value) (ms : Members)
      → has_key (fold_key j) s.fields.keys ≡ false
      → decode_struct (object (member j v ms)) ≡ decode_struct (object ms)
  unfolding decode_struct
  decode_foreign j v ms h = s.fields.read_foreign s.make j v ms h
