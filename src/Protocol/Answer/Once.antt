-- ===== src/Protocol/Answer/Once.antt =====
-- What a caller of pkg/protocol/protocol.go gets.
use uni_chat_sdk.Prelude.{List, [], ◌∷◌, ◌≡◌, refl}
use uni_chat_sdk.Protocol.Types.{Request, Response}
use uni_chat_sdk.Protocol.Intake.{Input, Decoder, accepted, decode_bounded_request}
use uni_chat_sdk.Protocol.Answer.{
  Handler, call_handler_context, serve_stdio, Action, sets_deadline, sets_read_deadline,
  sets_write_deadline, reads, calls, writes, closes, answer, serve_conn,
}

pub written : List Action → List Response
written [] = []
written (writes r ∷ xs) = r ∷ written xs
written (sets_deadline t ∷ xs) = written xs
written (sets_read_deadline t ∷ xs) = written xs
written (sets_write_deadline t ∷ xs) = written xs
written (reads ∷ xs) = written xs
written (calls req ∷ xs) = written xs
written (closes ∷ xs) = written xs

pub called : List Action → List Request
called [] = []
called (writes r ∷ xs) = called xs
called (sets_deadline t ∷ xs) = called xs
called (sets_read_deadline t ∷ xs) = called xs
called (sets_write_deadline t ∷ xs) = called xs
called (reads ∷ xs) = called xs
called (calls req ∷ xs) = req ∷ called xs
called (closes ∷ xs) = called xs

pub written_accepted :
    (decode : Decoder) (i : Input) (h : Handler) (req : Request)
    → decode_bounded_request decode i ≡ accepted req
    → written (serve_conn decode i h) ≡ call_handler_context h req ∷ []
unfolding serve_conn answer written
written_accepted decode i h req e = rw e refl

-- Over a pipe and over a socket, the same accepted request gets the same response.
pub serve_stdio-serve_conn :
    (decode : Decoder) (i j : Input) (h : Handler) (req : Request)
    → decode_bounded_request decode i ≡ accepted req
    → decode_bounded_request decode j ≡ accepted req
    → written (serve_conn decode j h) ≡ serve_stdio decode i h ∷ []
unfolding serve_conn serve_stdio answer written
serve_stdio-serve_conn decode i j h req a b = rw (b, serve_stdio, a) refl
