-- ===== src/Protocol/Client/Served.antt =====
-- Call of pkg/protocol/protocol.go on a daemon that serves its connection.
use uni_chat_sdk.Prelude.{
  ℕ, zero, suc, ◌-◌, ◌≤◌, Bytes, Bool, true, false, none, List, [], ◌∷◌, ◌++◌, length, take,
  trim_space, ◌≡◌, arith, refl, sym, length-append, take-append_long, take_all, inr,
}
use mathlib.Core.List.{append-nil}
use uni_chat_sdk.Protocol.Types.{Request, Response}
use uni_chat_sdk.Protocol.Intake.{
  Channel, Ending, Decoder, Input, socket, pipe, at_eof, timed_out, accepted,
  decode_bounded_request, decoded, drop, is_json_space, limited_view, limited_ending,
}
use uni_chat_sdk.Protocol.Intake.Accepted.{accepted_iff, IsClear, IsQuiet, all_json_space}
use uni_chat_sdk.Protocol.Answer.{Handler, serve_conn, call_handler_context}
use uni_chat_sdk.Protocol.Answer.Once.{written, written_accepted}
use uni_chat_sdk.Protocol.Engine.{Result, error, value}
use uni_chat_sdk.Protocol.Client.{
  Peer, connected, sets_deadline, sends, receives, closes, line, exchange, send_request, call,
}
use uni_chat_sdk.Protocol.Client.Codec.{on_wire, IsRequestCodec, IsResponseCodec}

drop-append :
    {A : Type 0} (n : ℕ) (xs ys : List A)
    → length xs ≤ n
    → drop n (xs ++ ys) ≡ drop (n - length xs) ys
drop-append n [] ys h = ground arith
drop-append zero (x ∷ xs) ys h = elim h [ ]
drop-append (suc n) (x ∷ xs) ys h = ground (arith, drop-append n xs ys)

take-blank : (n : ℕ) (w : Bool) → trim_space (take n (on_wire w [])) ≡ []
unfolding trim_space
take-blank zero true = refl
take-blank zero false = refl
take-blank (suc zero) true = refl
take-blank (suc (suc n)) true = refl
take-blank (suc n) false = refl

drop-on_wire : (n : ℕ) (w : Bool) → (v : Bool) × (drop n (on_wire w []) ≡ on_wire v [])
drop-on_wire zero w = (w, refl)
drop-on_wire (suc n) false = (false, refl)
drop-on_wire (suc zero) true = (false, refl)
drop-on_wire (suc (suc n)) true = (false, refl)

rest_blank : (w : Bool) → all_json_space (on_wire w []) ≡ true
unfolding all_json_space is_json_space
rest_blank true = refl
rest_blank false = refl

on_wire-append : (w : Bool) (b : Bytes) → on_wire w b ≡ b ++ on_wire w []
on_wire-append true b = refl
on_wire-append false b = sym (append-nil b)

drop-take :
    (b w : Bytes) (n : ℕ) → length b ≤ n → drop (length b) (take n (b ++ w)) ≡ take (n - length b) w
drop-take b w n h =
    rw (take-append_long n b w h, drop-append (length b) b (take (n - length b) w) (omega arith))
      (ground arith)

view_whole : (i : Input) → length i.bytes ≤ suc 1048576 → limited_view i ≡ i.bytes
view_whole i h = take_all (suc 1048576) i.bytes h

length-on_wire : (w : Bool) → length (on_wire w []) ≤ 1
length-on_wire true = omega arith
length-on_wire false = omega arith

-- The view of an input that holds a text within the limit is all of it, and nothing but a newline is
-- left behind the text.
clear_lem :
    (i : Input) (req : Request) (b : Bytes) (w : Bool) (n : ℕ)
    → i.bytes ≡ b ++ on_wire w []
    → length b ≤ 1048576
    → length b ≤ n
    → IsQuiet i n i.channel
    → IsClear i req (decoded req (length b) n)
unfolding IsClear
clear_lem i req b w n whole short reach quiet =
    let fits : length i.bytes ≤ suc 1048576 =
      ground (arith, length-append b (on_wire w []), length-on_wire w, whole) in
    let left : drop (length b) (take n i.bytes) ≡ take (n - length b) (on_wire w []) =
      rw whole (drop-take b (on_wire w []) n reach) in
    (length b, n, refl, short, rw (view_whole i fits, left) (take-blank (n - length b) w), quiet)

-- How the reading of a request ends where nothing follows it.
abbrev pub idle : Channel → Ending
idle socket = timed_out
idle pipe = at_eof

quiet_lem :
    (i : Input) (b : Bytes) (w : Bool) (n : ℕ) (c : Channel)
    → i.bytes ≡ b ++ on_wire w []
    → length b ≤ n
    → i.ending ≡ idle c
    → IsQuiet i n c
unfolding IsQuiet
quiet_lem i b w n socket whole reach e =
    let (v, left) = drop-on_wire (n - length b) w in
    (rw (whole, drop-append n b (on_wire w []) reach, left) (rest_blank v), e)
quiet_lem i b w n pipe whole reach e =
    let (v, left) = drop-on_wire (n - length b) w in
    (rw (whole, drop-append n b (on_wire w []) reach, left) (take-blank _ v), inr e)

module _ {marshal : Request → Result Bytes} {decode : Decoder} {received : Request → Request}
    (json : IsRequestCodec marshal decode received) where
  pub accepts :
      (req : Request) (b : Bytes) (w : Bool) (c : Channel)
      → marshal req ≡ value b
      → length b ≤ 1048576
      → decode_bounded_request decode (record { channel = c; bytes = on_wire w b; ending = idle c })
        ≡ accepted (received req)
  accepts req b w c m short =
      let i : Input = record { channel = c; bytes = on_wire w b; ending = idle c } in
      let (n, reach, d) = json.decode-marshal req b w (limited_ending i) m in
      let whole = on_wire-append w b in
      let fits : length i.bytes ≤ suc 1048576 =
        ground (arith, length-append b (on_wire w []), length-on_wire w, whole) in
      (accepted_iff decode i (received req)).1 (
        rw (view_whole i fits, d)
          (clear_lem i (received req) b w n whole short reach
            (quiet_lem i b w n c whole reach refl)))

-- The lines that an Encoder writes for these responses: nothing for one that has no text.
unfoldable pub lines : (Response → Result Bytes) → List Response → Bytes
lines marshal [] = []
lines marshal (resp ∷ resps) = elim (marshal resp) [
  | error err ↦ lines marshal resps
  | value b ↦ line b ++ lines marshal resps
]

-- The daemon behind a connection, to a client that sends no more and waits: it reads what was sent,
-- until the deadline for more has passed, writes its responses and closes the connection.
unfoldable pub daemon : Decoder → Handler → (Response → Result Bytes) → Peer
daemon decode h marshal = record {
  write = λ b. none;
  reply = λ b.
      lines marshal (
        written (serve_conn decode (record { channel = socket; bytes = b; ending = timed_out }) h));
  ending = λ b. at_eof;
}

daemon_write :
    (decode : Decoder) (h : Handler) (marshal : Response → Result Bytes) (b : Bytes)
    → (daemon decode h marshal).write b ≡ none
unfolding daemon
daemon_write decode h marshal b = refl

module _ (marshal : Request → Result Bytes) (decode : Bytes → Ending → Result Response) where
  exchange_lem :
      (peer : Peer) (b : Bytes) (r : Result Response)
      → peer.write (line b) ≡ none
      → decode (peer.reply (line b)) (peer.ending (line b)) ≡ r
      → exchange marshal decode peer b ≡ (sends (line b) ∷ receives ∷ [], r)
  unfolding exchange
  exchange_lem peer b r w d = ground (arith, w, d)

  pub call_exchange :
      (peer : Peer) (req : Request) (b : Bytes) (timeout : ℕ) (r : Result Response)
      → marshal req ≡ value b
      → peer.write (line b) ≡ none
      → decode (peer.reply (line b)) (peer.ending (line b)) ≡ r
      → call marshal decode connected peer req timeout
        ≡ (sets_deadline timeout ∷ sends (line b) ∷ receives ∷ closes ∷ [], r)
  unfolding call send_request
  call_exchange peer req b timeout r m w d = ground (arith, m, exchange_lem peer b r w d)

pub lines_one :
    (marshal : Response → Result Bytes) (resp : Response) (c : Bytes)
    → marshal resp ≡ value c
    → lines marshal (resp ∷ []) ≡ line c
unfolding lines
lines_one marshal resp c m = ground (arith, m, append-nil (line c))

module _ {marshal_req : Request → Result Bytes} {decode_req : Decoder}
    {received_req : Request → Request} (marshal : Response → Result Bytes) where
  replies :
      IsRequestCodec marshal_req decode_req received_req
      → (h : Handler) (req : Request) (b c : Bytes) → marshal_req req ≡ value b
      → length b ≤ 1048576
      → marshal (call_handler_context h (received_req req)) ≡ value c
      → (daemon decode_req h marshal).reply (line b) ≡ line c
  unfolding daemon
  replies requests h req b c m short mc =
      rw
        (written_accepted decode_req
          (record { channel = socket; bytes = line b; ending = timed_out }) h (received_req req)
          (accepts requests req b true socket m short))
        (lines_one marshal (call_handler_context h (received_req req)) c mc)

  module _ {unmarshal : Bytes → Result Response} {decode : Bytes → Ending → Result Response}
      {received : Response → Response} where
    -- A call to a daemon that listens, with a request of at most 1048576 bytes, sets its deadline, sends
    -- the request, reads once and closes the connection, and returns the response of the daemon's handler
    -- to the request, a panic's failure included, if that response can be written and the codecs read
    -- what they write.
    pub call-serve_conn :
        IsRequestCodec marshal_req decode_req received_req
        → IsResponseCodec marshal unmarshal decode received
        → (h : Handler) (req : Request) (b c : Bytes) (timeout : ℕ) → marshal_req req ≡ value b
        → length b ≤ 1048576
        → marshal (call_handler_context h (received_req req)) ≡ value c
        → call marshal_req decode connected (daemon decode_req h marshal) req timeout ≡ (
          sets_deadline timeout ∷ sends (line b) ∷ receives ∷ closes ∷ [],
          value (received (call_handler_context h (received_req req))),
        )
    call-serve_conn requests responses h req b c timeout m short mc =
        let answered : decode ((daemon decode_req h marshal).reply (line b))
              ((daemon decode_req h marshal).ending (line b))
            ≡ _ =
          rw (replies requests h req b c m short mc)
            (responses.decode-marshal (call_handler_context h (received_req req)) c _ mc) in
        call_exchange marshal_req decode (daemon decode_req h marshal) req b timeout _ m
          (daemon_write decode_req h marshal (line b)) answered
