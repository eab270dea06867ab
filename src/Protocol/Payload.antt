-- ===== src/Protocol/Payload.antt =====
-- The checks of payloads in pkg/protocol/protocol.go.
pub mod Object
use uni_chat_sdk.Prelude.{
  ℕ, eqb, Bytes, text, ◌==◌, Bool, true, false, not, ◌||◌, Option, none, some, List, [], ◌∷◌,
  if◌then◌else◌, trim_space,
}

-- GetPostArgs
pub record GetPostArgs : Type 0 where
  pub channel_id : Bytes
  pub engine : Bytes
  pub post_id : Bytes

unfoldable pub validate : GetPostArgs → Option Bytes
validate a = if a.post_id == [] then some (text "get_post: post_id is required") else none

abbrev pub states : List Bytes
states =
    text "queued"
    ∷ text "running"
    ∷ text "paused"
    ∷ text "needs_reconciliation"
    ∷ text "completed"
    ∷ text "cancelled"
    ∷ text "failed"
    ∷ text "expired"
    ∷ []

unfoldable pub is_one_of : Bytes → List Bytes → Bool
is_one_of s [] = false
is_one_of s (x ∷ xs) = (s == x) || is_one_of s xs

-- DeleteJobState.Valid
unfoldable pub is_valid_state : Bytes → Bool
is_valid_state s = is_one_of s states

pub data Result (A : Type 0) : Type 0 where
  error : Bytes → Result A
  value : A → Result A

abbrev pub starts_object : Bytes → Bool
starts_object [] = false
starts_object (c ∷ cs) = eqb c 123

-- `valid` is json.Valid and `unmarshal` json.Unmarshal at the type of the result.
unfoldable pub unmarshal_json_object :
    {A : Type 0} → (Bytes → Bool) → (Bytes → Result A) → Bytes → Result A
unmarshal_json_object valid unmarshal body =
    let trimmed = trim_space body in
    if trimmed == []
    then error (text "response data is empty: want JSON object")
    else if not (valid trimmed)
    then error (text "response data is malformed JSON: want JSON object")
    else if not (starts_object trimmed)
    then error (text "response data is not a JSON object")
    else unmarshal trimmed
