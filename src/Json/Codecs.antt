-- ===== src/Json/Codecs.antt =====
-- Codecs of Go's types, as encoding/json writes and reads them into a fresh variable.
use uni_chat_sdk.Prelude.{
  ltb, eqb, ℕ, ◌^◌, ◌^◌, ltb, Bytes, ◌==◌, ==_iff, Bool, true, false, not, Option, none, some, [],
  if◌then◌else◌, ◌>>=◌, ◌≡◌, refl, arith, ap,
}
use uni_chat_sdk.Prelude.Ints.{ℤ, pos, negsuc, is_zero_int}
use uni_chat_sdk.Json.Values.{Value, null, bool, number, str, array, object}
use uni_chat_sdk.Json.Folding.{to_utf8, is_utf8}

-- `none` is an error. `is_empty` is what `omitempty` tests, `zero` what a key that is missing leaves,
-- `is_zero` says that a value is that, and `is_valid` that it is written, and read back as it is.
pub record Codec (A : Type 0) : Type 0 where
  pub encode : A → Option Value
  pub decode : Value → Option A
  pub zero : A
  pub is_empty : A → Bool
  pub is_zero : A → Bool
  pub is_valid : A → Bool
  pub decode-encode : (a : A) → is_valid a ≡ true → (encode a >>= decode) ≡ some a
  pub zero_lem : (a : A) → is_zero a ≡ true → a ≡ zero

-- A string; a type whose underlying type is string is the same.
abbrev pub encode_text : Bytes → Option Value
encode_text s = some (str (to_utf8 s))

abbrev pub decode_text : Value → Option Bytes
decode_text (str s) = some s
decode_text null = some []
decode_text (bool b) = none
decode_text (number n) = none
decode_text (array vs) = none
decode_text (object ms) = none

pub decode_text-encode_text :
    (s : Bytes) → is_utf8 s ≡ true → (encode_text s >>= decode_text) ≡ some s
unfolding is_utf8
decode_text-encode_text s h = ap some ((==_iff (to_utf8 s) s).0 h)

pub text_empty : (s : Bytes) → (s == []) ≡ true → s ≡ []
text_empty s h = (==_iff s []).0 h

abbrev pub text_codec : Codec Bytes
text_codec = record {
  encode = encode_text;
  decode = decode_text;
  zero = [];
  is_empty = λ s. s == [];
  is_zero = λ s. s == [];
  is_valid = is_utf8;
  decode-encode = decode_text-encode_text;
  zero_lem = text_empty;
}

abbrev pub decode_bool : Value → Option Bool
decode_bool (bool b) = some b
decode_bool null = some false
decode_bool (str s) = none
decode_bool (number n) = none
decode_bool (array vs) = none
decode_bool (object ms) = none

pub bool_empty : (b : Bool) → not b ≡ true → b ≡ false
bool_empty true h = ground arith
bool_empty false h = refl

abbrev pub bool_codec : Codec Bool
bool_codec = record {
  encode = λ b. some (bool b);
  decode = decode_bool;
  zero = false;
  is_empty = not;
  is_zero = not;
  is_valid = λ b. true;
  decode-encode = λ b h. refl;
  zero_lem = bool_empty;
}

-- int and int64 have 64 bits.
abbrev pub fits_int64 : ℤ → Bool
fits_int64 (pos n) = ltb n (2 ^ 63)
fits_int64 (negsuc n) = ltb n (2 ^ 63)

unfoldable pub decode_int : Value → Option ℤ
decode_int (number n) = if fits_int64 n then some n else none
decode_int null = some (pos 0)
decode_int (bool b) = none
decode_int (str s) = none
decode_int (array vs) = none
decode_int (object ms) = none

pub decode_int-number : (n : ℤ) → fits_int64 n ≡ true → (some (number n) >>= decode_int) ≡ some n
unfolding decode_int
decode_int-number n h = rw h refl

pub int_empty : (n : ℤ) → is_zero_int n ≡ true → n ≡ pos 0
int_empty (pos n) h = ground arith
int_empty (negsuc n) h = ground arith

abbrev pub int_codec : Codec ℤ
int_codec = record {
  encode = λ n. some (number n);
  decode = decode_int;
  zero = pos 0;
  is_empty = is_zero_int;
  is_zero = is_zero_int;
  is_valid = fits_int64;
  decode-encode = decode_int-number;
  zero_lem = int_empty;
}

-- The law of a type whose zero value is not told.
pub never_zero : {A : Type 0} (a z : A) → false ≡ true → a ≡ z
never_zero a z h = absurd cc

-- uint64
unfoldable pub decode_u64 : Value → Option ℕ
decode_u64 (number (pos n)) = if ltb n (2 ^ 64) then some n else none
decode_u64 (number (negsuc n)) = none
decode_u64 null = some 0
decode_u64 (bool b) = none
decode_u64 (str s) = none
decode_u64 (array vs) = none
decode_u64 (object ms) = none

pub decode_u64-number :
    (n : ℕ) → ltb n (2 ^ 64) ≡ true → (some (number (pos n)) >>= decode_u64) ≡ some n
unfolding decode_u64
decode_u64-number n h = rw h refl

pub u64_zero : (n : ℕ) → eqb n 0 ≡ true → n ≡ 0
u64_zero n h = ground arith

abbrev pub u64_codec : Codec ℕ
u64_codec = record {
  encode = λ n. some (number (pos n));
  decode = decode_u64;
  zero = 0;
  is_empty = λ n. eqb n 0;
  is_zero = λ n. eqb n 0;
  is_valid = λ n. ltb n (2 ^ 64);
  decode-encode = decode_u64-number;
  zero_lem = u64_zero;
}
