-- ===== src/State/Lock/Returns.antt =====
-- When LockContext of state/state.go returns, and with what.
use uni_chat_sdk.Prelude.{
  Bytes, Bool, true, false, not, ◌&&◌, none, some, List, [], ◌∷◌, if◌then◌else◌, ◌≡◌, ◌↔◌, arith,
}
use uni_chat_sdk.State.Lock.{
  granted, would_block, failed, Turn, Outcome, Context, poll, Setup, lock_context, Error,
}

abbrev no_error : Error → Bool
no_error none = true
no_error (some e) = false

-- The lock is held by another process and the context is not done.
unfoldable pub waits : Turn → Bool
waits turn = elim turn.flock [ granted ↦ false | failed e ↦ false | would_block ↦ not turn.is_done ]

unfoldable pub all_wait : List Turn → Bool
all_wait [] = true
all_wait (turn ∷ turns) = waits turn && all_wait turns

-- The first turn that does not wait gets the lock.
pub is_granted : List Turn → Bool
is_granted [] = false
is_granted (turn ∷ turns) =
    let rest = is_granted turns in
    elim turn.flock [
      | granted ↦ true
      | failed e ↦ false
      | would_block ↦ if turn.is_done then false else rest
    ]

poll-none :
    (lock_path : Bytes) (ctx : Context) (turns : List Turn)
    → (poll lock_path ctx turns ≡ none) ↔ (all_wait turns ≡ true)
unfolding poll all_wait waits
poll-none lock_path ctx [] = ground arith
poll-none lock_path ctx (turn ∷ turns) = ground (arith, poll-none lock_path ctx turns)

poll-some :
    (lock_path : Bytes) (ctx : Context) (turns : List Turn) (r : Outcome)
    → poll lock_path ctx turns ≡ some r
    → ((r.kept ≡ true) ↔ (r.err ≡ none)) × ((r.err ≡ none) ↔ (is_granted turns ≡ true))
unfolding poll is_granted
poll-some lock_path ctx [] r h = ground arith
poll-some lock_path ctx (turn ∷ turns) r h = ground (arith, h, poll-some lock_path ctx turns r)

-- The calls before the loop succeed.
pub is_ready : Setup → Bool
is_ready setup =
    no_error setup.mkdir
    && no_error setup.chmod_dir
    && no_error setup.open_file
    && no_error setup.chmod_file

-- A call of LockContext returns unless its first calls succeed and at each turn of its loop the lock is
-- held and the context is not done. If it returns, it has the lock, and keeps its file open, exactly if
-- it has no error, which is exactly if the first calls succeed and the first turn that does not wait
-- is granted the lock; with an error the file is closed.
pub lock_context_lem :
    (setup : Setup) (lock_path : Bytes) (ctx : Context) (turns : List Turn)
    → ((lock_context setup lock_path ctx turns ≡ none)
        ↔ ((is_ready setup && all_wait turns) ≡ true))
      × ((r : Outcome)
          → lock_context setup lock_path ctx turns ≡ some r
          → ((r.kept ≡ true) ↔ (r.err ≡ none))
            × ((r.err ≡ none) ↔ ((is_ready setup && is_granted turns) ≡ true)))
unfolding lock_context is_ready
lock_context_lem setup lock_path ctx turns = (
  ground (arith, poll-none lock_path ctx turns),
  (λ r h. ground (arith, h, poll-some lock_path ctx turns r)),
)
