-- ===== src/Json/Fields.antt =====
-- The fields of a Go struct with `json` tags, as encoding/json writes and reads them.
use uni_chat_sdk.Prelude.{
  Bytes, ◌==◌, ==_iff, Bool, true, false, not, ◌&&◌, ◌||◌, Option, none, some, List, [], ◌∷◌,
  if◌then◌else◌, ◌>>=◌, ◌≡◌, refl, arith, Option-cases, inl, inr,
}
use uni_chat_sdk.Json.Values.{Value, Members, no_members, member}
use uni_chat_sdk.Json.Folding.{fold_key, find}
use uni_chat_sdk.Json.Codecs.{Codec}

unfoldable pub has_key : Bytes → List Bytes → Bool
has_key k [] = false
has_key k (j ∷ ks) = (j == k) || has_key k ks

-- The last fields of the struct `T`: `R` is what makes a `T` of their values, one after the other.
-- `rebuild` gives it those of a `T`, and `zeros` the zero values.
pub record Fields (T R : Type 0) : Type 0 where
  pub keys : List Bytes
  pub is_formed : Bool
  pub are_valid : T → Bool
  pub write : T → Option Members
  pub read : R → Members → Option T
  pub rebuild : R → T → T
  pub zeros : R → T
  pub read-write :
      is_formed ≡ true
      → (r : R) (t : T) → are_valid t ≡ true
      → (write t >>= read r) ≡ some (rebuild r t)
  pub read_nothing : (r : R) → read r no_members ≡ some (zeros r)
  pub read_foreign :
      (r : R) (j : Bytes) (v : Value) (ms : Members)
      → has_key (fold_key j) keys ≡ false
      → read r (member j v ms) ≡ read r ms
  pub find-write :
      is_formed ≡ true
      → (k : Bytes) (t : T) (ms : Members) → has_key k keys ≡ false
      → write t ≡ some ms
      → find k ms ≡ none

pub no_find : (k : Bytes) (ms : Members) → some no_members ≡ some ms → find k ms ≡ none
unfolding find
no_find k ms h = ground arith

abbrev pub end : {T : Type 0} → Fields T T
end = record {
  keys = [];
  is_formed = true;
  are_valid = λ t. true;
  write = λ t. some no_members;
  read = λ r ms. some r;
  rebuild = λ r t. r;
  zeros = λ r. r;
  read-write = λ w r t h. refl;
  read_nothing = λ r. refl;
  read_foreign = λ r j v ms h. refl;
  find-write = λ w k t ms h e. no_find k ms e;
}

pub bind_some :
    {A B : Type 0} (o : Option A) (f : A → Option B) (b : B)
    → (o >>= f) ≡ some b
    → (a : A) × (o ≡ some a) × (f a ≡ some b)
bind_some none f b h = absurd cc
bind_some (some a) f b h = (a, refl, h)

-- A key of a field as its tag spells it, in lower case, that no later field has.
unfoldable pub is_fresh : Bytes → List Bytes → Bool
is_fresh k ks = (fold_key k == k) && not (has_key k ks)

-- A field's tag, its value in a struct, the codec of its type, and what a missing key leaves in it:
-- `is_base` says that a value is that.
pub record Field (T A : Type 0) : Type 0 where
  pub key : Bytes
  pub omit_empty : Bool
  pub get : T → A
  pub codec : Codec A
  pub base : A
  pub is_base : A → Bool
  pub base_lem : (a : A) → is_base a ≡ true → a ≡ base

-- A field of a fresh variable, with the tag `json:"key"` or `json:"key,omitempty"`.
abbrev pub fresh : {T A : Type 0} → Bytes → Bool → (T → A) → Codec A → Field T A
fresh k omit g c = record {
  key = k;
  omit_empty = omit;
  get = g;
  codec = c;
  base = c.zero;
  is_base = c.is_zero;
  base_lem = c.zero_lem;
}

abbrev pub required : {T A : Type 0} → Bytes → (T → A) → Codec A → Field T A
required k g c = fresh k false g c

abbrev pub optional : {T A : Type 0} → Bytes → (T → A) → Codec A → Field T A
optional k g c = fresh k true g c

module _ {T A R : Type 0} (f : Field T A) (rest : Fields T R) where
  unfoldable pub well_formed : Bool
  well_formed = is_fresh f.key rest.keys && rest.is_formed

  unfoldable pub write_field : T → Option Members
  write_field t = rest.write t >>= λ ms.
      if f.omit_empty && f.codec.is_empty (f.get t)
      then some ms
      else (f.codec.encode (f.get t) >>= λ v. some (member f.key v ms))

  unfoldable pub read_value : Option Value → Option A
  read_value none = some f.base
  read_value (some v) = f.codec.decode v

  unfoldable pub read_field : (A → R) → Members → Option T
  read_field r ms = read_value (find f.key ms) >>= λ a. rest.read (r a) ms

  -- A value that is left out is read as what a missing key leaves.
  unfoldable pub field_valid : T → Bool
  field_valid t =
      f.codec.is_valid (f.get t)
      && (not f.omit_empty || not (f.codec.is_empty (f.get t)) || f.is_base (f.get t))
      && rest.are_valid t

  pub read_field-write_field :
      well_formed ≡ true
      → (r : A → R) (t : T) → field_valid t ≡ true
      → (write_field t >>= read_field r) ≡ some (rest.rebuild (r (f.get t)) t)
  unfolding well_formed is_fresh field_valid write_field read_field read_value find
  read_field-write_field fresh r t valid =
      let a = f.get t in
      let (ms, wrote, reads) =
        bind_some (rest.write t) (rest.read (r a)) (rest.rebuild (r a) t)
          (rest.read-write (ground arith) (r a) t (ground arith)) in
      let (v, encoded, decoded) =
        bind_some (f.codec.encode a) f.codec.decode a (f.codec.decode-encode a (ground arith)) in
      ground (
        arith,
        wrote,
        reads,
        encoded,
        decoded,
        f.base_lem a,
        rest.find-write (ground arith) f.key t ms,
        rest.read_foreign (r a) f.key v ms,
        ==_iff (fold_key f.key) f.key,
      )

  pub read_field_nothing : (r : A → R) → read_field r no_members ≡ some (rest.zeros (r f.base))
  unfolding read_field read_value find
  read_field_nothing r = ground (arith, rest.read_nothing (r f.base))

  pub read_field_foreign :
      (r : A → R) (j : Bytes) (v : Value) (ms : Members)
      → has_key (fold_key j) (f.key ∷ rest.keys) ≡ false
      → read_field r (member j v ms) ≡ read_field r ms
  unfolding has_key read_field find
  read_field_foreign r j v ms h = elim (Option-cases (read_value (find f.key ms))) [
    | inl e0 ↦ ground (arith, e0, ==_iff (fold_key j) f.key, ==_iff f.key (fold_key j))
    | inr (a, e0) ↦ ground (
      arith,
      e0,
      rest.read_foreign (r a) j v ms,
      ==_iff (fold_key j) f.key,
      ==_iff f.key (fold_key j),
    )
  ]

  pub find-write_field :
      well_formed ≡ true
      → (q : Bytes) (t : T) (ms : Members) → has_key q (f.key ∷ rest.keys) ≡ false
      → write_field t ≡ some ms
      → find q ms ≡ none
  unfolding well_formed is_fresh has_key write_field find
  find-write_field fresh q t ms h e = elim (Option-cases (rest.write t)) [
    | inl e0 ↦ ground (arith, e0)
    | inr (ns, wrote) ↦ elim (Option-cases (f.codec.encode (f.get t))) [
      | inl e0 ↦ ground (arith, wrote, e0, rest.find-write (ground arith) q t ns)
      | inr (v, encoded) ↦ ground (
        arith,
        wrote,
        encoded,
        rest.find-write (ground arith) q t ns,
        ==_iff (fold_key f.key) f.key,
        ==_iff f.key q,
      )
    ]
  ]

infixr 4 ◌⨾◌
abbrev pub ◌⨾◌ : {T A R : Type 0} → Field T A → Fields T R → Fields T (A → R)
f ⨾ rest = record {
  keys = f.key ∷ rest.keys;
  is_formed = well_formed f rest;
  are_valid = field_valid f rest;
  write = write_field f rest;
  read = read_field f rest;
  rebuild = λ r t. rest.rebuild (r (f.get t)) t;
  zeros = λ r. rest.zeros (r f.base);
  read-write = read_field-write_field f rest;
  read_nothing = read_field_nothing f rest;
  read_foreign = read_field_foreign f rest;
  find-write = find-write_field f rest;
}
