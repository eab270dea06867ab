-- ===== src/Json/Nested.antt =====
-- Pointers, slices and times, as encoding/json writes and reads them.
use uni_chat_sdk.Prelude.{
  ltb, leb, Bool, true, false, not, ◌&&◌, Option, none, some, List, [], ◌∷◌, if◌then◌else◌, ◌>>=◌,
  ◌≡◌, refl, arith,
}
use uni_chat_sdk.Prelude.Time.{Time, Rfc3339, IsRfc3339, zero_time, first_time, last_time}
use uni_chat_sdk.Json.Values.{
  Value, null, bool, number, str, array, object, Values, no_values, item,
}
use uni_chat_sdk.Json.Codecs.{Codec, never_zero}
use uni_chat_sdk.Json.Fields.{bind_some}

abbrev pub is_null : Value → Bool
is_null null = true
is_null (bool b) = false
is_null (number n) = false
is_null (str s) = false
is_null (array vs) = false
is_null (object ms) = false

abbrev pub is_absent : {A : Type 0} → Option A → Bool
is_absent none = true
is_absent (some a) = false

module _ {A : Type 0} (c : Codec A) where
  -- A pointer: null is nil, whatever it points to.
  unfoldable pub encode_pointer : Option A → Option Value
  encode_pointer none = some null
  encode_pointer (some a) = c.encode a

  unfoldable pub decode_pointer : Value → Option (Option A)
  decode_pointer v = if is_null v then some none else (c.decode v >>= λ a. some (some a))

  -- What a pointer points to is no value that is written as null.
  abbrev pub not_null : Option Value → Bool
  not_null none = false
  not_null (some v) = not (is_null v)

  unfoldable pub pointer_valid : Option A → Bool
  pointer_valid none = true
  pointer_valid (some a) = c.is_valid a && not_null (c.encode a)

  pub decode_pointer-encode_pointer :
      (o : Option A) → pointer_valid o ≡ true → (encode_pointer o >>= decode_pointer) ≡ some o
  unfolding encode_pointer decode_pointer pointer_valid
  decode_pointer-encode_pointer none h = refl
  decode_pointer-encode_pointer (some a) h =
      let (v, encoded, decoded) =
        bind_some (c.encode a) c.decode a (c.decode-encode a (ground arith)) in
      ground (arith, encoded, decoded)

  pub absent_none : (o : Option A) → is_absent o ≡ true → o ≡ none
  absent_none none h = refl
  absent_none (some a) h = absurd cc

  abbrev pub pointer_codec : Codec (Option A)
  pointer_codec = record {
    encode = encode_pointer;
    decode = decode_pointer;
    zero = none;
    is_empty = is_absent;
    is_zero = is_absent;
    is_valid = pointer_valid;
    decode-encode = decode_pointer-encode_pointer;
    zero_lem = absent_none;
  }

  unfoldable pub encode_items : List A → Option Values
  encode_items [] = some no_values
  encode_items (a ∷ l) = c.encode a >>= λ v. encode_items l >>= λ vs. some (item v vs)

  unfoldable pub decode_items : Values → Option (List A)
  decode_items no_values = some []
  decode_items (item v vs) = c.decode v >>= λ a. decode_items vs >>= λ l. some (a ∷ l)

  unfoldable pub items_valid : List A → Bool
  items_valid [] = true
  items_valid (a ∷ l) = c.is_valid a && items_valid l

  pub decode_items-encode_items :
      (l : List A) → items_valid l ≡ true → (encode_items l >>= decode_items) ≡ some l
  unfolding encode_items decode_items items_valid
  decode_items-encode_items [] h = refl
  decode_items-encode_items (a ∷ l) h =
      let (v, encoded, decoded) =
        bind_some (c.encode a) c.decode a (c.decode-encode a (ground arith)) in
      let (vs, wrote, reads) =
        bind_some (encode_items l) decode_items l (decode_items-encode_items l (ground arith)) in
      ground (arith, encoded, decoded, wrote, reads)

  -- A slice: `[]` is nil, which is written as null.
  unfoldable pub encode_slice : List A → Option Value
  encode_slice [] = some null
  encode_slice (a ∷ l) = encode_items (a ∷ l) >>= λ vs. some (array vs)

  unfoldable pub decode_slice : Value → Option (List A)
  decode_slice (array vs) = decode_items vs
  decode_slice null = some []
  decode_slice (bool b) = none
  decode_slice (number n) = none
  decode_slice (str s) = none
  decode_slice (object ms) = none

  pub decode_slice-encode_slice :
      (l : List A) → items_valid l ≡ true → (encode_slice l >>= decode_slice) ≡ some l
  unfolding encode_slice decode_slice
  decode_slice-encode_slice [] h = refl
  decode_slice-encode_slice (a ∷ l) h =
      let (vs, wrote, reads) =
        bind_some (encode_items (a ∷ l)) decode_items (a ∷ l)
          (decode_items-encode_items (a ∷ l) h) in
      ground (arith, wrote, reads)

  abbrev pub is_nil : List A → Bool
  is_nil [] = true
  is_nil (a ∷ l) = false

  pub nil_empty : (l : List A) → is_nil l ≡ true → l ≡ []
  nil_empty [] h = refl
  nil_empty (a ∷ l) h = absurd cc

  abbrev pub slice_codec : Codec (List A)
  slice_codec = record {
    encode = encode_slice;
    decode = decode_slice;
    zero = [];
    is_empty = is_nil;
    is_zero = is_nil;
    is_valid = items_valid;
    decode-encode = decode_slice-encode_slice;
    zero_lem = nil_empty;
  }

-- The years that JSON can write a time of.
unfoldable pub in_range : Time → Bool
in_range t = leb first_time t && ltb t last_time

-- time.Time: a time out of range is not written, and null leaves the time as it is.
module _ (clock : Rfc3339) (clock_ok : IsRfc3339 clock) where
  unfoldable pub encode_time : Time → Option Value
  encode_time t = if in_range t then some (str (clock.format t)) else none

  unfoldable pub decode_time : Value → Option Time
  decode_time (str s) = clock.parse s
  decode_time null = some zero_time
  decode_time (bool b) = none
  decode_time (number n) = none
  decode_time (array vs) = none
  decode_time (object ms) = none

  pub decode_time-encode_time :
      (t : Time) → in_range t ≡ true → (encode_time t >>= decode_time) ≡ some t
  unfolding encode_time decode_time in_range
  decode_time-encode_time t h = ground (arith, clock_ok.parse-format t)

  abbrev pub time_codec : Codec Time
  time_codec = record {
    encode = encode_time;
    decode = decode_time;
    zero = zero_time;
    is_empty = λ t. false;
    is_zero = λ t. false;
    is_valid = in_range;
    decode-encode = decode_time-encode_time;
    zero_lem = λ t h. never_zero t zero_time h;
  }
