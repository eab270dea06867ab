-- ===== src/Protocol/Buffer/Clean.antt =====
-- The diagnostic text that pkg/protocol/protocol.go takes from an engine's standard error.
use uni_chat_sdk.Prelude.{
  ℕ, ltb, eqb, Bytes, text, Bool, true, not, ◌&&◌, ◌||◌, ◌≡◌, [], ◌∷◌, ◌++◌, length, trim_space,
  arith, refl,
}
use uni_chat_sdk.Protocol.Buffer.{
  BoundedBuffer, sanitize_control_byte, sanitize_control_bytes, sanitize_stderr_tail,
}

pub is_control : ℕ → Bool
is_control c = ltb c 0x20 || eqb c 0x7F

pub is_clean : Bytes → Bool
is_clean [] = true
is_clean (c ∷ b) = not (is_control c) && is_clean b

is_clean-append : (a b : Bytes) → is_clean (a ++ b) ≡ (is_clean a && is_clean b)
unfolding is_clean
is_clean-append [] b = refl
is_clean-append (c ∷ a) b = ground (arith, is_clean-append a b)

-- Sanitising leaves no control byte, keeps the number of bytes, and changes nothing in bytes that have
-- none; so sanitising twice is sanitising once.
pub sanitize_control_bytes_lem :
    (b : Bytes)
    → (is_clean (sanitize_control_bytes b) ≡ true)
      × (length (sanitize_control_bytes b) ≡ length b)
      × (is_clean b ≡ true → sanitize_control_bytes b ≡ b)
unfolding is_clean is_control sanitize_control_bytes sanitize_control_byte
sanitize_control_bytes_lem [] = (refl, refl, λ _. refl)
sanitize_control_bytes_lem (c ∷ b) = ground (arith, sanitize_control_bytes_lem b)

marker-clean : is_clean (text " ... [stderr truncated at 8192 bytes]") ≡ true
unfolding is_clean is_control
marker-clean = refl

-- Whatever an engine wrote to its standard error, the text that goes into an error message has no
-- ASCII control byte, the marker of a truncation included.
pub sanitize_stderr_tail-clean :
    (stderr : BoundedBuffer) → is_clean (sanitize_stderr_tail stderr) ≡ true
unfolding sanitize_stderr_tail
sanitize_stderr_tail-clean stderr = ground (
  arith,
  (sanitize_control_bytes_lem (trim_space stderr.buf)).0,
  is_clean-append (sanitize_control_bytes (trim_space stderr.buf))
      (text " ... [stderr truncated at 8192 bytes]"),
  marker-clean,
)
