-- ===== src/Protocol/Wire/Bounds.antt =====
-- Optional times: a pointer that is written and a time that is read.
use uni_chat_sdk.Prelude.{
  eqb_iff, Bool, true, false, ◌>>=◌, Option, none, some, ◌≡◌, arith, refl, Bytes,
}
use uni_chat_sdk.Prelude.Time.{Time, Rfc3339, IsRfc3339, zero_time}
use uni_chat_sdk.Json.Fields.{required, optional}
use uni_chat_sdk.Json.Nested.{
  in_range, encode_time, decode_time, decode_time-encode_time, encode_pointer, pointer_codec,
  pointer_valid, time_codec, is_absent,
}
use uni_chat_sdk.Json.Across.{Carries}
use uni_chat_sdk.Protocol.Wire.{optional_time, time_or_zero}

unfoldable pub time_valid : Option Time → Bool
time_valid none = true
time_valid (some t) = in_range t

pub time_or_zero-optional_time : (t : Time) → time_or_zero (optional_time t) ≡ t
unfolding time_or_zero optional_time
time_or_zero-optional_time t = ground (arith, eqb_iff t zero_time)

pub time_valid-optional_time : (t : Time) → in_range t ≡ true → time_valid (optional_time t) ≡ true
unfolding time_valid optional_time
time_valid-optional_time t h = ground arith

absent_zero : (o : Option Time) → is_absent o ≡ true → zero_time ≡ time_or_zero o
unfolding time_or_zero
absent_zero none h = refl
absent_zero (some t) h = absurd cc

module _ (clock : Rfc3339) (clock_ok : IsRfc3339 clock) where
  pub pointer_valid-time :
      (o : Option Time) → time_valid o ≡ true → pointer_valid (time_codec clock clock_ok) o ≡ true
  unfolding time_valid pointer_valid encode_time
  pointer_valid-time none h = refl
  pointer_valid-time (some t) h = ground arith

  read_pointer :
      (o : Option Time)
      → time_valid o ≡ true
      → is_absent o ≡ false
      → (encode_pointer (time_codec clock clock_ok) o >>= decode_time clock clock_ok)
        ≡ some (time_or_zero o)
  unfolding time_valid encode_pointer time_or_zero
  read_pointer none h e = absurd cc
  read_pointer (some t) h e = decode_time-encode_time clock clock_ok t h

  pub time-Carries :
      {T U : Type 0} (k : Bytes) (get : T → Option Time) (put : U → Time) (t : T)
      → time_valid (get t) ≡ true
      → Carries
          (optional k get (pointer_codec (time_codec clock clock_ok)))
          (required k put (time_codec clock clock_ok))
          t
          (time_or_zero (get t))
  time-Carries k get put t h = record {
    left_out = λ e. absent_zero (get t) e;
    written = λ e. read_pointer (get t) h e;
  }
