-- ===== src/State/Cursor.antt =====
-- `RecordCursor` and `AdvanceCursor` of state/state.go: a channel's cursor moves only along
-- successors that a check has observed.
mod Maps
pub mod Chart
pub mod Contract
pub mod Advance
pub mod Runs
use uni_chat_sdk.Prelude.{
  ℕ, Bytes, ◌==◌, Bool, true, false, not, ◌||◌, Option, none, some, [], if◌then◌else◌, ◌>>=◌,
}
use uni_chat_sdk.Prelude.GoMap.{GoMap, nil, empty, index, store, ensure}
use uni_chat_sdk.State.Defs.{State, next_u64}
use uni_chat_sdk.State.Pending.{or_empty}

-- m[k] of a map of maps: nil where the key is missing
abbrev pub or_nil {ℓ} : {V : Type ℓ} → Option (GoMap V) → GoMap V
or_nil none = nil
or_nil (some m) = m

-- m[k] of a map of numbers
abbrev pub or_zero : Option ℕ → ℕ
or_zero none = 0
or_zero (some n) = n

-- inner := outer[k]; if inner == nil { inner = map…{}; outer[k] = inner }. The inner map is shared
-- by reference, so that what is written to it later is stored back under `k`.
unfoldable pub ensure_inner {ℓ} :
    {V : Type ℓ} → GoMap (GoMap V) → Bytes → Option (GoMap (GoMap V) × GoMap V)
ensure_inner outer k = elim (or_nil (index outer k)) [
  | nil ↦ (store outer k empty >>= λ grown. some (grown, empty))
  | inner ↦ some (outer, inner)
]

-- The successor of `base` is new: give the candidate the next version.
unfoldable pub extend :
    State → Bytes → GoMap ℕ → GoMap Bytes → Bytes → Bytes → Option (State × Bool)
extend s channel versions successors base candidate =
    let base_version = or_zero (index versions base) in
    (if base == []
      then some versions
      else elim (index versions base) [ none ↦ store versions base 0 | some v ↦ some versions ])
    >>= λ rooted. store rooted candidate (next_u64 base_version) >>= λ versioned.
        store successors base candidate >>= λ linked.
        store s.cursor_versions channel versioned >>= λ all_versions.
        store s.cursor_successors channel linked >>= λ all_successors.
        some (record s { cursor_versions = all_versions; cursor_successors = all_successors }, true)

unfoldable pub record_observed :
    State → Bytes → GoMap ℕ → GoMap Bytes → Bytes → Bytes → Option (State × Bool)
record_observed s channel versions successors base candidate = elim (index successors base) [
  | some successor ↦ some (s, successor == candidate)
  | none ↦ elim (index versions candidate) [
    | some v ↦ some (s, false)
    | none ↦ extend s channel versions successors base candidate
  ]
]

-- `none` is a panic.
unfoldable pub record_cursor : State → Bytes → Bytes → Bytes → Option (State × Bool)
record_cursor s channel base candidate =
    if (channel == []) || (candidate == []) || (base == candidate)
    then some (s, false)
    else (let made = record s {
      cursor_versions = ensure s.cursor_versions;
      cursor_successors = ensure s.cursor_successors;
    } in
        ensure_inner made.cursor_versions channel >>= λ (all_versions, versions).
        ensure_inner made.cursor_successors channel >>= λ (all_successors, successors).
        record_observed
          (record made { cursor_versions = all_versions; cursor_successors = all_successors })
          channel versions successors base candidate)

unfoldable pub advance_cursor : State → Bytes → Bytes → Option (State × Bool)
advance_cursor s channel candidate =
    if (channel == []) || (candidate == [])
    then some (s, false)
    else (let current = or_empty (index s.cursors channel) in
        if current == candidate
        then some (s, false)
        else elim (index (or_nil (index s.cursor_successors channel)) current) [
          | none ↦ some (s, false)
          | some successor ↦
              if not (successor == candidate)
              then some (s, false)
              else (store (ensure s.cursors) channel candidate >>= λ moved.
                  some (record s { cursors = moved }, true))
        ])
