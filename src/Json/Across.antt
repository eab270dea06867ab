-- ===== src/Json/Across.antt =====
-- What one Go struct writes as JSON, read into another struct whose tags have the same keys.
use uni_chat_sdk.Prelude.{
  Bytes, true, false, ◌&&◌, none, some, ◌>>=◌, ◌≡◌, arith, ==_iff, Bool-cases, inl, inr, sym,
}
use uni_chat_sdk.Json.Values.{Value, Members, member}
use uni_chat_sdk.Json.Folding.{fold_key, find}
use uni_chat_sdk.Json.Structs.{Struct, encode_struct, decode_struct}
use uni_chat_sdk.Json.Fields.{
  required, Field, Fields, well_formed, is_fresh, write_field, read_field, read_value, bind_some,
}

-- The field's value in `t`, left out or written, is read by the field `g` as `b`.
pub record Carries {T U A B : Type 0} (f : Field T A) (g : Field U B) (t : T) (b : B) : Type 0 where
  pub left_out : (f.omit_empty && f.codec.is_empty (f.get t)) ≡ true → g.base ≡ b
  pub written :
      (f.omit_empty && f.codec.is_empty (f.get t)) ≡ false
      → (f.codec.encode (f.get t) >>= g.codec.decode) ≡ some b

module _ {T A R U B S : Type 0} (f : Field T A) (fs : Fields T R) (g : Field U B)
    (gs : Fields U S) where
  write_kept :
      (t : T) (v : Value) (ms : Members)
      → (f.omit_empty && f.codec.is_empty (f.get t)) ≡ false
      → fs.write t ≡ some ms
      → f.codec.encode (f.get t) ≡ some v
      → write_field f fs t ≡ some (member f.key v ms)
  unfolding write_field
  write_kept t v ms kept wrote encoded = ground (arith, kept, wrote, encoded)

  read_kept :
      f.key ≡ g.key
      → well_formed g gs ≡ true
      → (s : B → S) (v : Value) (ms : Members) (b : B) (u : U) → find f.key ms ≡ none
      → g.codec.decode v ≡ some b
      → gs.read (s b) ms ≡ some u
      → read_field g gs s (member f.key v ms) ≡ some u
  unfolding well_formed is_fresh read_field read_value find
  read_kept keys gormed s v ms b u new decoded reads = ground (
    arith,
    keys,
    new,
    decoded,
    reads,
    gs.read_foreign (s b) f.key v ms,
    ==_iff (fold_key g.key) g.key,
  )

  pub across :
      f.key ≡ g.key
      → well_formed f fs ≡ true
      → well_formed g gs ≡ true
      → (t : T) (s : B → S) (b : B) (u : U) → Carries f g t b
      → (fs.write t >>= gs.read (s b)) ≡ some u
      → (write_field f fs t >>= read_field g gs s) ≡ some u
  unfolding well_formed is_fresh write_field read_field read_value find
  across keys formed gormed t s b u carries h =
      let (ms, wrote, reads) = bind_some (fs.write t) (gs.read (s b)) u h in
      elim (Bool-cases (f.omit_empty && f.codec.is_empty (f.get t))) [
        | inl out ↦ ground (
          arith,
          keys,
          wrote,
          reads,
          out,
          carries.left_out out,
          fs.find-write (ground arith) f.key t ms,
        )
        | inr kept ↦
            let (v, encoded, decoded) =
              bind_some (f.codec.encode (f.get t)) g.codec.decode b (carries.written kept) in
            rw (write_kept t v ms kept wrote encoded) (
              read_kept keys gormed s v ms b u
                (fs.find-write (ground arith) f.key t ms (ground arith) wrote) decoded reads)
      ]

-- A field that is read by the codec that wrote it.
pub codec-Carries :
    {T U A : Type 0} (f : Field T A) (k : Bytes) (get : U → A) (t : T)
    → f.codec.is_valid (f.get t) ≡ true
    → (f.codec.is_empty (f.get t) ≡ true → f.codec.is_zero (f.get t) ≡ true)
    → Carries f (required k get f.codec) t (f.get t)
codec-Carries f k get t h z = record {
  left_out = λ e. sym (f.codec.zero_lem (f.get t) (z (ground (arith, e))));
  written = λ e. f.codec.decode-encode (f.get t) h;
}

pub across_structs :
    {T U : Type 0} (s : Struct T) (r : Struct U) (t : T) (u : U)
    → (s.fields.write t >>= r.fields.read r.make) ≡ some u
    → (encode_struct s t >>= decode_struct r) ≡ some u
unfolding encode_struct decode_struct
across_structs s r t u h =
    let (ms, wrote, reads) = bind_some (s.fields.write t) (r.fields.read r.make) u h in
    ground (arith, wrote, reads)
