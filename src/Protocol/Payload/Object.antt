-- ===== src/Protocol/Payload/Object.antt =====
-- Which response payloads pkg/protocol/protocol.go decodes.
use uni_chat_sdk.Prelude.{Bytes, ==_iff, Bool, true, [], trim_space, ◌≡◌, ◌↔◌, arith}
use uni_chat_sdk.Protocol.Payload.{Result, value, starts_object, unmarshal_json_object}

-- A payload is decoded to a value exactly if, trimmed, it is valid JSON that starts with a brace and
-- the decoder takes it to that value.
pub unmarshal_json_object_lem :
    {A : Type 0} (valid : Bytes → Bool) (unmarshal : Bytes → Result A) (body : Bytes) (v : A)
    → (unmarshal_json_object valid unmarshal body ≡ value v) ↔ (
        (valid (trim_space body) ≡ true)
        × (starts_object (trim_space body) ≡ true)
        × (unmarshal (trim_space body) ≡ value v))
unfolding unmarshal_json_object
unmarshal_json_object_lem valid unmarshal body v = ground (arith, ==_iff (trim_space body) [])
