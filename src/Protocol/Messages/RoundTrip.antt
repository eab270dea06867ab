-- ===== src/Protocol/Messages/RoundTrip.antt =====
-- What the messages of pkg/protocol/protocol.go are after encoding and decoding.
use uni_chat_sdk.Prelude.{Bool, true, false}
use uni_chat_sdk.Json.Values.{Value, null, bool, number, str, array, object}

-- A JSON value that is an object or null.
unfoldable pub is_record : Value → Bool
is_record null = true
is_record (object ms) = true
is_record (bool b) = false
is_record (number n) = false
is_record (str s) = false
is_record (array vs) = false
