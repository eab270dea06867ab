-- ===== src/Protocol/Buffer.antt =====
-- The bounded buffer of pkg/protocol/protocol.go, which keeps what an engine writes, and the text that
-- an error shows of it.
pub mod Kept
pub mod Clean
use uni_chat_sdk.Prelude.{
  ℕ, ◌-◌, ltb, leb, eqb, Bytes, text, Bool, true, false, ◌||◌, List, [], ◌∷◌, ◌++◌, if◌then◌else◌,
  length, take, trim_space, map,
}

abbrev pub max_engine_stdout_bytes : ℕ
max_engine_stdout_bytes = 1048576

abbrev pub max_engine_stderr_bytes : ℕ
max_engine_stderr_bytes = 8192

-- The limits are constants of the source, never negative.
pub record BoundedBuffer : Type 0 where
  pub buf : Bytes
  pub limit : ℕ
  pub truncated : Bool

unfoldable pub new_bounded_buffer : ℕ → BoundedBuffer
new_bounded_buffer limit = record { buf = []; limit = limit; truncated = false }

-- The buffer after the write, and the count reported. `leb b.limit (length b.buf)` is `room <= 0`.
unfoldable pub write : BoundedBuffer → Bytes → BoundedBuffer × ℕ
write b p =
    let room = b.limit - length b.buf in
    if b.truncated
    then (b, length p)
    else if leb b.limit (length b.buf)
    then (record b { truncated = true }, length p)
    else if ltb room (length p)
    then (record b { buf = b.buf ++ take room p; truncated = true }, length p)
    else (record b { buf = b.buf ++ p }, length p)

-- The writes of a command's output, one after the other.
unfoldable pub write_all : BoundedBuffer → List Bytes → BoundedBuffer
write_all b [] = b
write_all b (p ∷ ps) = write_all (write b p).0 ps

unfoldable pub sanitize_control_byte : ℕ → ℕ
sanitize_control_byte c = if ltb c 0x20 || eqb c 0x7F then 32 else c

unfoldable pub sanitize_control_bytes : Bytes → Bytes
sanitize_control_bytes b = map sanitize_control_byte b

unfoldable pub sanitize_stderr_tail : BoundedBuffer → Bytes
sanitize_stderr_tail stderr =
    let sanitized = sanitize_control_bytes (trim_space stderr.buf) in
    if stderr.truncated
    then sanitized ++ text " ... [stderr truncated at 8192 bytes]"
    else sanitized
