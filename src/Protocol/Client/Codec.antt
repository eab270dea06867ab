-- ===== src/Protocol/Client/Codec.antt =====
-- What the transports of pkg/protocol/protocol.go rely on of encoding/json.
use uni_chat_sdk.Prelude.{ℕ, ◌≤◌, Bytes, Bool, true, false, length, trim_space, ◌≡◌}
use uni_chat_sdk.Protocol.Types.{Request, Response}
use uni_chat_sdk.Protocol.Intake.{Ending, Decoder, decoded}
use uni_chat_sdk.Protocol.Engine.{Result, value}
use uni_chat_sdk.Protocol.Client.{line}

-- The text of a message, with the newline that an Encoder writes or without.
abbrev pub on_wire : Bool → Bytes → Bytes
on_wire true b = line b
on_wire false b = b

-- A request's text is decoded, up to its end, as `received` of the request, whose raw arguments are
-- compacted; the decoder has read all of the text, and perhaps the newline.
pub record IsRequestCodec (marshal : Request → Result Bytes) (decode : Decoder)
    (received : Request → Request) : Type 0 where
  pub decode-marshal :
      (req : Request) (b : Bytes) (newline : Bool) (e : Ending)
      → marshal req ≡ value b
      → (n : ℕ) × (length b ≤ n)
        × (decode (on_wire newline b) e ≡ decoded (received req) (length b) n)

-- A response's text has no space around it, and is decoded as `received` of the response, at hand or
-- from a stream.
pub record IsResponseCodec (marshal : Response → Result Bytes) (unmarshal : Bytes → Result Response)
    (decode : Bytes → Ending → Result Response) (received : Response → Response) : Type 0 where
  pub trim-marshal :
      (resp : Response) (b : Bytes) → marshal resp ≡ value b → trim_space (line b) ≡ b
  pub unmarshal-marshal :
      (resp : Response) (b : Bytes) → marshal resp ≡ value b → unmarshal b ≡ value (received resp)
  pub decode-marshal :
      (resp : Response) (b : Bytes) (e : Ending)
      → marshal resp ≡ value b
      → decode (line b) e ≡ value (received resp)
