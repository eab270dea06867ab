-- ===== src/Protocol/Intake/Accepted.antt =====
-- Which requests pkg/protocol/protocol.go takes in.
use uni_chat_sdk.Prelude.{
  ℕ, suc, ◌-◌, ◌≤◌, Bytes, ==_iff, Bool, true, ◌&&◌, Option, none, some, [], ◌∷◌, take, trim_space,
  length, ◌≡◌, ◌↔◌, ◌⊎◌, arith, refl,
}
use uni_chat_sdk.Protocol.Types.{Request}
use uni_chat_sdk.Protocol.Intake.{
  Input, Channel, pipe, socket, Ending, at_eof, timed_out, broken, Decoded, undecodable, decoded,
  Decoder, accepted, has_non_whitespace, is_json_space, reject_socket_trailing_data,
  reject_pipe_trailing_data, reject_trailing_data, limited_ending, decode_bounded_request,
  max_request_json_bytes, drop, intake_of, limited_view, check_decoded,
}

unfoldable pub all_json_space : Bytes → Bool
all_json_space [] = true
all_json_space (c ∷ cs) = is_json_space c && all_json_space cs

-- A socket passes exactly if it is silent from the request to the deadline, but for JSON white space.
socket_lem :
    (cs : Bytes) (e : Ending)
    → (reject_socket_trailing_data cs e ≡ none) ↔ ((all_json_space cs ≡ true) × (e ≡ timed_out))
unfolding reject_socket_trailing_data all_json_space
socket_lem [] timed_out = ground arith
socket_lem [] at_eof = ground arith
socket_lem [] (broken b) = ground arith
socket_lem (c ∷ cs) e = ground (arith, socket_lem cs e)

-- The input behind the first `read` bytes is as the channel wants it behind a request.
unfoldable pub IsQuiet : Input → ℕ → Channel → Type 0
IsQuiet i read socket = (all_json_space (drop read i.bytes) ≡ true) × (i.ending ≡ timed_out)
IsQuiet i read pipe =
    (trim_space (take (suc max_request_json_bytes - read) (drop read i.bytes)) ≡ [])
    × (suc max_request_json_bytes - read ≤ length (drop read i.bytes) ⊎ i.ending ≡ at_eof)

quiet_lem :
    (i : Input) (read : ℕ) (c : Channel)
    → i.channel ≡ c
    → (reject_trailing_data i read ≡ none) ↔ IsQuiet i read c
unfolding reject_trailing_data IsQuiet reject_pipe_trailing_data has_non_whitespace
quiet_lem i read socket e = rw e (socket_lem (drop read i.bytes) i.ending)
quiet_lem i read pipe e = rw e (
    ground (
      arith,
      ==_iff (trim_space (take (suc max_request_json_bytes - read) (drop read i.bytes))) [],
    ))

intake_of_iff :
    (r q : Request) (e : Option Bytes) → (intake_of r e ≡ accepted q) ↔ ((e ≡ none) × (r ≡ q))
intake_of_iff r q none = ((λ h. (refl, cc)), (λ h. cc))
intake_of_iff r q (some b) = ((λ h. absurd cc), (λ h. absurd cc))

-- The decoder's result is a request that ends within the limit, followed by nothing but white space.
unfoldable pub IsClear : Input → Request → Decoded → Type 0
IsClear i req d =
    (offset : ℕ) × (read : ℕ) × (d ≡ decoded req offset read)
    × (offset ≤ 1048576)
    × (trim_space (drop offset (take read (limited_view i))) ≡ [])
    × IsQuiet i read i.channel

decoded_inj :
    {r q : Request} {o p n m : ℕ} → decoded r o n ≡ decoded q p m → (r ≡ q) × (o ≡ p) × (n ≡ m)
decoded_inj e = (cc, cc, cc)

check_decoded_iff :
    (i : Input) (req : Request) (d : Decoded) → (check_decoded i d ≡ accepted req) ↔ IsClear i req d
unfolding check_decoded has_non_whitespace IsClear
check_decoded_iff i req (undecodable err read) =
    ((λ h. ground arith), (λ (o, n, e, l, t, w). absurd cc))
check_decoded_iff i req (decoded r offset read) =
    let q = quiet_lem i read i.channel refl in
    let b = ==_iff (trim_space (drop offset (take read (limited_view i)))) [] in
    let k = intake_of_iff r req (reject_trailing_data i read) in
    (
      (λ h. (
        offset,
        read,
        ground (arith, h, k),
        ground (arith, h),
        ground (arith, h, b),
        q.0 (ground (arith, h, k)),
      )),
      (λ (o, n, e, l, t, w).
          let (re, oe, ne) = decoded_inj e in
          let quiet = q.1 (rw ne w) in
          let blank = b.1 (rw (oe, ne) t) in ground (arith, quiet, blank, k, re, oe, l)),
    )

-- A request is accepted exactly if the JSON decoder finds it in the input's first 1048577 bytes, it
-- ends within 1048576 bytes, what the decoder took beyond it is white space, and the input is quiet
-- behind that: a socket sends nothing but JSON white space and stays open until the deadline; a pipe
-- has nothing but white space within the limit, and ends there without an error or goes on past it.
pub accepted_iff :
    (decode : Decoder) (i : Input) (req : Request)
    → (decode_bounded_request decode i ≡ accepted req)
      ↔ IsClear i req (decode (limited_view i) (limited_ending i))
unfolding decode_bounded_request
accepted_iff decode i req = check_decoded_iff i req (decode (limited_view i) (limited_ending i))
