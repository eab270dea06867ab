-- ===== src/State/Cursor/Runs.antt =====
-- Any sequence of `RecordCursor` and `AdvanceCursor` calls on one state (state/state.go).
use uni_chat_sdk.Prelude.{
  Bytes, ◌≡◌, refl, sym, ◌∙◌, ap, ◌==◌, ==_iff, Bool, true, ◌⊎◌, inl, inr, ◌&&◌, Option-cases,
  Bool-cases, Option, none, some, List, [], ◌∷◌, arith,
}
use mathlib.Core.Path.{subst}
use uni_chat_sdk.State.Defs.{State}
use uni_chat_sdk.State.Cursor.{record_cursor, advance_cursor}
use uni_chat_sdk.State.Cursor.Chart.{successor, version}
use uni_chat_sdk.State.Cursor.Contract.{
  accepts, Recorded, record_cursor-Recorded, IsChart, record_cursor-IsChart,
}
use uni_chat_sdk.State.Cursor.Advance.{cursor, moves, Advanced, advance_cursor-Advanced}

-- A call of a check (base, candidate) or of an ack (candidate), on a channel.
pub data Call : Type 0 where
  observe : Bytes → Bytes → Bytes → Call
  ack : Bytes → Bytes → Call

pub step : State → Call → Option (State × Bool)
step s (observe channel base candidate) = record_cursor s channel base candidate
step s (ack channel candidate) = advance_cursor s channel candidate

pub run : State → List Call → Option State
run s [] = some s
run s (c ∷ calls) = elim (step s c) [ none ↦ none | some (t, b) ↦ run t calls ]

-- `y` is reached from `x` by recorded successors.
pub data Chain (s : State) (channel : Bytes) : Bytes → Bytes → Type 0 where
  here : {x : Bytes} → Chain s channel x x
  next :
      {x y z : Bytes} → successor s channel x ≡ some y → Chain s channel y z → Chain s channel x z

-- What one call does to the chart and the cursors.
record Advances (s t : State) : Type 0 where
  keeps : (j x c : Bytes) → successor s j x ≡ some c → successor t j x ≡ some c
  follows :
      (j : Bytes) → (cursor t j ≡ cursor s j) ⊎ (successor t j (cursor s j) ≡ some (cursor t j))
  chart : IsChart s → IsChart t

record_Advances :
    {s t : State} (channel base candidate : Bytes) (b : Bool)
    → Recorded s channel base candidate t b
    → (IsChart s → IsChart t)
    → Advances s t
unfolding accepts
record_Advances {s} {t} channel base candidate b r chart = record {
  keeps = λ j x c h.
      ground (arith, r.answer, r.links j x, h, ==_iff channel j, ==_iff base x, ==_iff c candidate);
  follows = λ j. inl (ap (λ m. cursor (record s { cursors = m }) j) r.outside.cursors);
  chart = chart;
}

successor_same :
    (s t : State) (j x : Bytes)
    → t.cursor_successors ≡ s.cursor_successors
    → successor t j x ≡ successor s j x
unfolding successor
successor_same s t j x e = rw e

version_same :
    (s t : State) (j x : Bytes)
    → t.cursor_versions ≡ s.cursor_versions
    → version t j x ≡ version s j x
unfolding version
version_same s t j x e = rw e

IsChart-same :
    {s t : State}
    → t.cursor_successors ≡ s.cursor_successors
    → t.cursor_versions ≡ s.cursor_versions
    → IsChart s
    → IsChart t
IsChart-same {s} {t} e f inv = record {
  linked = λ j b c.
      rw (successor_same s t j b e, version_same s t j c f, version_same s t j b f)
        (inv.linked j b c);
  known = λ j b c. rw (successor_same s t j b e, version_same s t j b f) (inv.known j b c);
  unique = λ j a b c. rw (successor_same s t j a e, successor_same s t j b e) (inv.unique j a b c);
}

successor_of_moves :
    (s : State) (channel candidate : Bytes)
    → moves s channel candidate ≡ true
    → successor s channel (cursor s channel) ≡ some candidate
successor_of_moves s channel candidate h =
    elim (Option-cases (successor s channel (cursor s channel))) [
      | inl e ↦ ground arith
      | inr (x, e) ↦ ground (arith, ==_iff x candidate)
    ]

advance_follows :
    {s t : State} (channel candidate : Bytes) (b : Bool) (j : Bytes)
    → Advanced s channel candidate t b
    → (cursor t j ≡ cursor s j) ⊎ (successor s j (cursor s j) ≡ some (cursor t j))
advance_follows {s} {t} channel candidate b j a = elim (Bool-cases (b && (channel == j))) [
  | inr e ↦ inl (a.position j ∙ rw e)
  | inl e ↦
      let same : channel ≡ j = (==_iff channel j).0 (ground arith) in
      let moved : moves s channel candidate ≡ true = sym a.answer ∙ ground arith in
      inr (
        rw (a.position j, e)
          (subst (λ k. successor s k (cursor s k) ≡ some candidate) same
            (successor_of_moves s channel candidate moved)))
]

advance_Advances :
    {s t : State} (channel candidate : Bytes) (b : Bool)
    → Advanced s channel candidate t b
    → Advances s t
advance_Advances {s} {t} channel candidate b a = record {
  keeps = λ j x c h. successor_same s t j x a.outside.successors ∙ h;
  follows = λ j.
      rw (successor_same s t j (cursor s j) a.outside.successors)
        (advance_follows channel candidate b j a);
  chart = IsChart-same a.outside.successors a.outside.versions;
}

-- Two answers of one call are one answer.
same_result :
    {r : Option (State × Bool)} (t u : State) (b c : Bool)
    → r ≡ some (t, b)
    → r ≡ some (u, c)
    → u ≡ t
same_result t u b c p q = cc

step-Advances :
    (s : State) (c : Call)
    → (t : State) × (b : Bool) × (step s c ≡ some (t, b)) × (IsChart s → Advances s t)
unfolding step
step-Advances s (observe channel base candidate) =
    let (t, b, e, r) = record_cursor-Recorded s channel base candidate in
    (
      t,
      b,
      e,
      λ inv.
          let (u, c, f, chart) = record_cursor-IsChart s channel base candidate inv in
          record_Advances channel base candidate b r
            (λ _. subst IsChart (same_result t u b c e f) chart),
    )
step-Advances s (ack channel candidate) =
    let (t, b, e, a) = advance_cursor-Advanced s channel candidate in
    (t, b, e, λ _. advance_Advances channel candidate b a)

run_step :
    (s t : State) (b : Bool) (c : Call) (calls : List Call)
    → step s c ≡ some (t, b)
    → run s (c ∷ calls) ≡ run t calls
unfolding run
run_step s t b c calls e = rw (e, run)

run_none : (s : State) → run s [] ≡ some s
unfolding run
run_none s = refl

Traveled : State → State → Type 0
Traveled s u =
    IsChart u
    × ((j x c : Bytes) → successor s j x ≡ some c → successor u j x ≡ some c)
    × ((j : Bytes) → Chain u j (cursor s j) (cursor u j))

travel_first : (s t u : State) → Advances s t → Traveled t u → Traveled s u
unfolding Traveled
travel_first s t u a (chart, keeps, path) = (
  chart,
  λ j x c h. keeps j x c (a.keeps j x c h),
  λ j. elim (a.follows j) [ inl e ↦ rw (sym e) (path j) | inr e ↦ next (keeps j _ _ e) (path j) ],
)

-- From a sound chart any sequence of calls returns, and the chart stays sound. A recorded
-- successor is never forgotten or changed, and each channel's cursor is where a chain of recorded
-- successors leads from where it was.
pub run-Chain :
    (s : State) (calls : List Call)
    → IsChart s
    → (u : State) × (run s calls ≡ some u)
      × IsChart u
      × ((j x c : Bytes) → successor s j x ≡ some c → successor u j x ≡ some c)
      × ((j : Bytes) → Chain u j (cursor s j) (cursor u j))
unfolding Traveled
run-Chain s [] inv = (s, run_none s, inv, (λ j x c h. h), λ j. here)
run-Chain s (c ∷ calls) inv =
    let (t, b, e, f) = step-Advances s c in
    let (u, r, chart, keeps, path) = run-Chain t calls ((f inv).chart inv) in
    let whole : Traveled s u = travel_first s t u (f inv) (chart, keeps, path) in
    (u, run_step s t b c calls e ∙ r, whole.0, whole.1, whole.2)
