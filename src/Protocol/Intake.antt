-- ===== src/Protocol/Intake.antt =====
-- How pkg/protocol/protocol.go reads one bounded request, from a pipe or from a socket.
pub mod Accepted
use uni_chat_sdk.Prelude.{
  ℕ, zero, suc, ◌-◌, ltb, leb, eqb, Bytes, text, ◌==◌, Bool, true, false, not, ◌&&◌, ◌||◌, Option,
  none, some, List, [], ◌∷◌, ◌++◌, if◌then◌else◌, take, trim_space, length,
}
use uni_chat_sdk.Protocol.Types.{Request}

abbrev pub max_request_json_bytes : ℕ
max_request_json_bytes = 1048576

-- How a read ends once the bytes are used up: the end of the input, the deadline, or another error.
pub data Ending : Type 0 where
  at_eof : Ending
  timed_out : Ending
  broken : Bytes → Ending

-- A pipe (any io.Reader that is no net.Conn), or a socket.
pub data Channel : Type 0 where
  pipe : Channel
  socket : Channel

pub record Input : Type 0 where
  pub channel : Channel
  pub bytes : Bytes
  pub ending : Ending

-- json.Decoder.Decode on what the limited reader yields of the input: an error, or the request and its
-- InputOffset; `read` is how many bytes the decoder has taken from the reader.
pub data Decoded : Type 0 where
  undecodable : (err : Bytes) (read : ℕ) → Decoded
  decoded : (req : Request) (offset : ℕ) (read : ℕ) → Decoded

abbrev pub Decoder : Type 0
Decoder = Bytes → Ending → Decoded

-- `nil`, or the text of an error.
abbrev pub Error : Type 0
Error = Option Bytes

pub data Intake : Type 0 where
  rejected : Bytes → Intake
  accepted : Request → Intake

abbrev pub too_long : Bytes
too_long = text "request JSON exceeds 1048576 bytes"

abbrev pub too_long_or_trailing : Bytes
too_long_or_trailing = text "request JSON exceeds 1048576 bytes or contains trailing data"

abbrev pub drop {ℓ} : {A : Type ℓ} → ℕ → List A → List A
drop zero xs = xs
drop (suc n) [] = []
drop (suc n) (x ∷ xs) = drop n xs

-- hasNonWhitespace on bytes at hand, which are read without an error.
unfoldable pub has_non_whitespace : Bytes → Bool
has_non_whitespace b = not (trim_space b == [])

-- bytes.Contains([]byte(" \t\r\n"), one[:1])
unfoldable pub is_json_space : ℕ → Bool
is_json_space c = eqb c 32 || eqb c 9 || eqb c 13 || eqb c 10

abbrev pub ending_error : Ending → Bytes
ending_error at_eof = text "EOF"
ending_error timed_out = text "i/o timeout"
ending_error (broken e) = e

-- The loop of one-byte reads.
unfoldable pub reject_socket_trailing_data : Bytes → Ending → Error
reject_socket_trailing_data [] timed_out = none
reject_socket_trailing_data [] at_eof = some (ending_error at_eof)
reject_socket_trailing_data [] (broken e) = some e
reject_socket_trailing_data (c ∷ cs) e =
    let rest = reject_socket_trailing_data cs e in
    if not (is_json_space c) then some too_long_or_trailing else rest

-- io.ReadAll on the limited reader: it ends at the limit, or as the input does. `rest` is what the
-- input still has and `n` how many bytes of it the limit allows.
unfoldable pub reject_pipe_trailing_data : Bytes → ℕ → Ending → Error
reject_pipe_trailing_data rest n e =
    let verdict = if has_non_whitespace (take n rest) then some too_long_or_trailing else none in
    if leb n (length rest)
    then verdict
    else elim e [ at_eof ↦ verdict | timed_out ↦ some (ending_error timed_out) | broken b ↦ some b ]

unfoldable pub reject_trailing_data : Input → ℕ → Error
reject_trailing_data i read = elim i.channel [
  | socket ↦ reject_socket_trailing_data (drop read i.bytes) i.ending
  | pipe ↦
      reject_pipe_trailing_data (drop read i.bytes) (suc max_request_json_bytes - read) i.ending
]

abbrev pub intake_of : Request → Error → Intake
intake_of req none = accepted req
intake_of req (some e) = rejected e

-- The limited reader yields one byte more than a request may have; the decoder sees the end of the
-- input where that limit is reached.
unfoldable pub limited_ending : Input → Ending
limited_ending i = if leb (suc max_request_json_bytes) (length i.bytes) then at_eof else i.ending

-- The first bytes of the input, which the limited reader yields.
abbrev pub limited_view : Input → Bytes
limited_view i = take (suc max_request_json_bytes) i.bytes

-- What is made of the decoder's result.
unfoldable pub check_decoded : Input → Decoded → Intake
check_decoded i (undecodable err read) =
    if eqb (suc max_request_json_bytes - read) 0 then rejected too_long else rejected err
check_decoded i (decoded req offset read) =
    if ltb max_request_json_bytes offset
    then rejected too_long
    else if has_non_whitespace (drop offset (take read (limited_view i)))
    then rejected too_long_or_trailing
    else intake_of req (reject_trailing_data i read)

unfoldable pub decode_bounded_request : Decoder → Input → Intake
decode_bounded_request decode i = check_decoded i (decode (limited_view i) (limited_ending i))
