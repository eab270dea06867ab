-- ===== src/Protocol/Deletion/Codec.antt =====
-- What the deletion payloads of pkg/protocol/protocol.go are after encoding and decoding.
use uni_chat_sdk.Prelude.{
  Bool, true, ◌&&◌, some, ◌≡◌, ◌>>=◌, arith, ap, refl, Bytes, List, [], ◌∷◌, ◌==◌,
}
use uni_chat_sdk.Prelude.Time.{Rfc3339, IsRfc3339}
use uni_chat_sdk.Json.Folding.{is_utf8, to_utf8}
use uni_chat_sdk.Json.Codecs.{text_codec}
use uni_chat_sdk.Json.Fields.{bind_some, field_valid}
use uni_chat_sdk.Json.Nested.{in_range, items_valid}
use uni_chat_sdk.Json.Structs.{encode_struct, decode_struct, decode_struct-encode_struct}
use uni_chat_sdk.Protocol.Wire.Bounds.{
  time_valid, time_valid-optional_time, pointer_valid-time, time_or_zero-optional_time,
}
use uni_chat_sdk.Protocol.Wire.RoundTrip.{are_texts}
use uni_chat_sdk.Protocol.Deletion.{
  DeletePreviewArgs, DeleteBatchArgs, DeleteArgsWire, preview_wire, preview_args, batch_wire,
  batch_args, delete_args_wire_struct, marshal_preview, unmarshal_preview, marshal_batch,
  unmarshal_batch,
}

preview_args-wire : (a : DeletePreviewArgs) → preview_args (preview_wire a) ≡ a
unfolding preview_args preview_wire
preview_args-wire a =
    ground (arith, time_or_zero-optional_time a.from, time_or_zero-optional_time a.to)

batch_args-wire : (a : DeleteBatchArgs) → batch_args (batch_wire a) ≡ a
unfolding batch_args batch_wire
batch_args-wire a =
    ground (arith, time_or_zero-optional_time a.from, time_or_zero-optional_time a.to)

-- Texts of UTF-8 and times of the years 0 to 9999.
unfoldable pub preview_valid : DeletePreviewArgs → Bool
preview_valid a =
    are_texts (a.channel_id ∷ a.channel ∷ a.engine ∷ [])
    && are_texts a.post_ids
    && in_range a.from
    && in_range a.to

unfoldable pub batch_valid : DeleteBatchArgs → Bool
batch_valid a =
    are_texts (a.channel_id ∷ a.engine ∷ a.snapshot ∷ [])
    && are_texts a.post_ids
    && are_texts a.protected_root_ids
    && in_range a.from
    && in_range a.to

abbrev wire_valid : DeleteArgsWire → Bool
wire_valid w =
    are_texts (w.channel_id ∷ w.channel ∷ w.engine ∷ w.snapshot ∷ [])
    && are_texts w.post_ids
    && are_texts w.protected_root_ids
    && time_valid w.from
    && time_valid w.to

are_texts-items : (l : List Bytes) → items_valid text_codec l ≡ are_texts l
unfolding items_valid
are_texts-items [] = refl
are_texts-items (s ∷ l) = ap (λ b. is_utf8 s && b) (are_texts-items l)

empty_utf8 : is_utf8 [] ≡ true
unfolding is_utf8 to_utf8 ◌==◌
empty_utf8 = refl

preview_wire-valid :
    (a : DeletePreviewArgs) → preview_valid a ≡ true → wire_valid (preview_wire a) ≡ true
unfolding preview_valid preview_wire
preview_wire-valid a h =
    ground (arith, empty_utf8, time_valid-optional_time a.from, time_valid-optional_time a.to)

batch_wire-valid : (a : DeleteBatchArgs) → batch_valid a ≡ true → wire_valid (batch_wire a) ≡ true
unfolding batch_valid batch_wire
batch_wire-valid a h =
    ground (arith, empty_utf8, time_valid-optional_time a.from, time_valid-optional_time a.to)

module _ (clock : Rfc3339) (clock_ok : IsRfc3339 clock) where
  fields_valid :
      (w : DeleteArgsWire)
      → wire_valid w ≡ true
      → (delete_args_wire_struct clock clock_ok).fields.are_valid w ≡ true
  unfolding delete_args_wire_struct field_valid
  fields_valid w h = ground (
    arith,
    are_texts-items w.post_ids,
    are_texts-items w.protected_root_ids,
    pointer_valid-time clock clock_ok w.from,
    pointer_valid-time clock clock_ok w.to,
  )

  delete_wire_round_trip :
      {A : Type 0} (w : DeleteArgsWire) (f : DeleteArgsWire → A) (a : A)
      → wire_valid w ≡ true
      → f w ≡ a
      → (encode_struct (delete_args_wire_struct clock clock_ok) w >>= λ v.
          decode_struct (delete_args_wire_struct clock clock_ok) v >>= λ r. some (f r))
        ≡ some a
  delete_wire_round_trip w f a h e =
      let (v, wrote, reads) =
        bind_some (encode_struct (delete_args_wire_struct clock clock_ok) w)
          (decode_struct (delete_args_wire_struct clock clock_ok)) w
          (decode_struct-encode_struct (delete_args_wire_struct clock clock_ok) w
            (fields_valid w h)) in
      ground (arith, wrote, reads, e)

  -- The arguments of a deletion preview, and those of a deletion batch, whose texts are UTF-8 and
  -- whose bounds lie in the years 0 to 9999 or are absent, are encoded through the wire struct that
  -- both share, and decoding what was encoded gives them back.
  pub unmarshal-marshal_delete :
      (a : DeletePreviewArgs) (b : DeleteBatchArgs)
      → preview_valid a ≡ true
      → batch_valid b ≡ true
      → ((marshal_preview clock clock_ok a >>= unmarshal_preview clock clock_ok) ≡ some a)
        × ((marshal_batch clock clock_ok b >>= unmarshal_batch clock clock_ok) ≡ some b)
  unfolding marshal_preview unmarshal_preview marshal_batch unmarshal_batch
  unmarshal-marshal_delete a b av bv = (
    delete_wire_round_trip (preview_wire a) preview_args a (preview_wire-valid a av)
        (preview_args-wire a),
    delete_wire_round_trip (batch_wire b) batch_args b (batch_wire-valid b bv) (batch_args-wire b),
  )
