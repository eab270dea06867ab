-- ===== src/State/Lock.antt =====
-- The cross-process lock of state/state.go, LockContext, and several processes that use it.
pub mod Exclusion
pub mod Returns
pub mod Bounded
use uni_chat_sdk.Prelude.{
  ℕ, eqb, Bytes, text, Bool, true, false, Option, none, some, List, [], ◌∷◌, ◌++◌, if◌then◌else◌,
  ◌≡◌,
}

abbrev pub Error : Type 0
Error = Option Bytes

-- What syscall.Flock with LOCK_EX|LOCK_NB comes to.
pub data Flock : Type 0 where
  granted : Flock
  would_block : Flock
  failed : Bytes → Flock

-- One turn of the loop: the flock, and whether the select behind it finds the context done.
pub record Turn : Type 0 where
  pub flock : Flock
  pub is_done : Bool

-- What LockContext returns; `kept` tells whether the lock file stays open.
pub record Outcome : Type 0 where
  pub err : Error
  pub kept : Bool

-- The context's deadline, if it has one, and its error, as texts.
pub record Context : Type 0 where
  pub deadline : Option Bytes
  pub err : Bytes

unfoldable pub not_acquired : Bytes → Context → Bytes
not_acquired lock_path ctx = elim ctx.deadline [
  | some deadline ↦
      text "state: lock "
      ++ lock_path
      ++ text " not acquired before deadline "
      ++ deadline
      ++ text " ("
      ++ ctx.err
      ++ text ")"
  | none ↦ text "state: lock " ++ lock_path ++ text " not acquired: " ++ ctx.err
]

-- The loop over its turns; `none` is a loop that goes on after them.
unfoldable pub poll : Bytes → Context → List Turn → Option Outcome
poll lock_path ctx [] = none
poll lock_path ctx (turn ∷ turns) =
    let rest = poll lock_path ctx turns in
    elim turn.flock [
      | granted ↦ some (record { err = none; kept = true })
      | failed e ↦ some (record { err = some e; kept = false })
      | would_block ↦
          if turn.is_done
          then some (record { err = some (not_acquired lock_path ctx); kept = false })
          else rest
    ]

-- The errors of the calls before the loop.
pub record Setup : Type 0 where
  pub mkdir : Error
  pub chmod_dir : Error
  pub open_file : Error
  pub chmod_file : Error

unfoldable pub lock_context : Setup → Bytes → Context → List Turn → Option Outcome
lock_context setup lock_path ctx turns = elim setup.mkdir [
  | some e ↦ some (record { err = some e; kept = false })
  | none ↦ elim setup.chmod_dir [
    | some e ↦ some (record { err = some e; kept = false })
    | none ↦ elim setup.open_file [
      | some e ↦ some (record { err = some e; kept = false })
      | none ↦ elim setup.chmod_file [
        | some e ↦ some (record { err = some e; kept = false })
        | none ↦ poll lock_path ctx turns
      ]
    ]
  ]
]

-- In milliseconds.
abbrev pub default_lock_timeout : ℕ
default_lock_timeout = 30000

abbrev pub lock_poll_interval : ℕ
lock_poll_interval = 10

-- Lock: the context has a deadline, `default_lock_timeout` from now.
unfoldable pub lock : Setup → Bytes → Bytes → List Turn → Option Outcome
lock setup lock_path deadline turns =
    lock_context setup lock_path
      (record { deadline = some deadline; err = text "context deadline exceeded" }) turns

-- A process that calls LockContext: it has not begun, polls, holds the lock, or is through with it,
-- because it released the lock, gave up or died.
pub data Phase : Type 0 where
  idle : Phase
  polling : Phase
  holding : Phase
  ended : Phase

-- The holder is what the system keeps of the lock; it frees the lock of a process that dies.
pub record System : Type 0 where
  pub holder : Option ℕ
  pub phases : ℕ → Phase

abbrev pub initial : System
initial = record { holder = none; phases = λ c. idle }

unfoldable pub set_phase : System → ℕ → Phase → System
set_phase s c p = record s { phases = λ d. if eqb d c then p else s.phases d }

-- The system's answer to a flock of a process that does not hold the lock.
unfoldable pub try_flock : Option ℕ → Flock
try_flock none = granted
try_flock (some d) = would_block

-- A turn of a process's loop.
unfoldable pub take_turn : System → ℕ → Bool → System
take_turn s c is_done = elim (try_flock s.holder) [
  | granted ↦ set_phase (record s { holder = some c }) c holding
  | would_block ↦ if is_done then set_phase s c ended else s
  | failed e ↦ set_phase s c ended
]

-- The function that LockContext returns; and what is left of a process that dies.
unfoldable pub release : System → ℕ → System
release s c = set_phase (record s { holder = none }) c ended

unfoldable pub die : System → ℕ → System
die s c = elim (s.phases c) [ holding ↦ release s c | _ ↦ set_phase s c ended ]

pub data Step : System → System → Type 0 where
  begins : {s : System} (c : ℕ) → s.phases c ≡ idle → Step s (set_phase s c polling)
  turns :
      {s : System} (c : ℕ) (is_done : Bool) → s.phases c ≡ polling → Step s (take_turn s c is_done)
  releases : {s : System} (c : ℕ) → s.phases c ≡ holding → Step s (release s c)
  dies : {s : System} (c : ℕ) → Step s (die s c)

pub data Reachable : System → Type 0 where
  started : Reachable initial
  stepped : {s t : System} → Reachable s → Step s t → Reachable t
