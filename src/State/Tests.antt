-- ===== src/State/Tests.antt =====
-- Runs of ApplyPending of state/state.go on small states.
use uni_chat_sdk.Prelude.{
  Bytes, text, ◌≡◌, refl, Bool, true, false, some, List, [], ◌∷◌, Ordering, Bool-cases, inl, inr,
  ==_iff, arith, ◌==◌, trim_space, compare_bytes,
}
use uni_chat_sdk.Prelude.GoMap.{made, index, lookup}
use uni_chat_sdk.Prelude.Time.{Time, number_clock, number_clock-IsRfc3339}
use uni_chat_sdk.Protocol.Types.{CheckItem}
use uni_chat_sdk.State.Defs.{State, compare_items, compare_timestamps, is_blank, valid_pending}
use uni_chat_sdk.State.Pending.{apply_pending, ensure_pending}
use uni_chat_sdk.State.Pending.Once.{apply_all, apply_pending-once}
use uni_chat_sdk.State.Pending.Effects.{
  Effect, apply_pending-Effect, IsProjection, apply_pending-IsProjection,
}
use uni_chat_sdk.State.Load.{initial_state}

abbrev pub town : Bytes
town = text "town"

-- A post of the channel `town`.
abbrev pub post : Bool → Bool → Bytes → Bytes → CheckItem
post own addressed id time = record {
  channel_id = town;
  channel_ref = text "team/town";
  sender = text "ann";
  message = text "hi";
  post_id = id;
  kind = [];
  own = own;
  addressed = addressed;
  created_at = time;
  thread_root_id = [];
  deep_link = [];
  web_link = [];
  reactions = [];
  own_reactions = [];
  reaction_details = [];
}

abbrev pub request : CheckItem
request = post false true (text "p1") (5 ∷ [])

abbrev pub later_request : CheckItem
later_request = post false true (text "p2") (7 ∷ [])

abbrev pub reply : CheckItem
reply = post true false (text "p3") (9 ∷ [])

abbrev undated_reply : CheckItem
undated_reply = post true false (text "p4") (text "noon")

abbrev pub waiting_state : State
waiting_state = record initial_state { pending = made ((town, request) ∷ []) }

request-later : compare_items number_clock later_request request ≡ Ordering.gt
unfolding compare_items compare_timestamps number_clock compare_bytes
request-later = refl

apply_pending-Effect_example :
    (t : State) × (accepted : Bool) × (apply_pending number_clock 3 waiting_state later_request
      ≡ some (t, accepted))
    × Effect town waiting_state t accepted
apply_pending-Effect_example = apply_pending-Effect number_clock 3 waiting_state later_request

request-valid : valid_pending request ≡ true
unfolding valid_pending is_blank trim_space ◌==◌
request-valid = refl

town-only :
    (k : Bytes) (i : CheckItem)
    → index waiting_state.pending k ≡ some i
    → (town ≡ k) × (request ≡ i)
unfolding index lookup
town-only k i h = elim (Bool-cases (town == k)) [
  | inl e ↦ ((==_iff town k).0 e, ground (arith, h, e))
  | inr e ↦ ground (arith, h, e)
]

pub waiting_state-IsProjection : IsProjection waiting_state
waiting_state-IsProjection = record {
  entry = λ k i h. let (e, q) = town-only k i h in ground (arith, e, q, request-valid);
  exclusive = λ k i h. unfold index lookup in refl;
}

apply_pending-IsProjection_example :
    (t : State) × (accepted : Bool) × (apply_pending number_clock 3 waiting_state reply
      ≡ some (t, accepted))
    × IsProjection t
apply_pending-IsProjection_example =
    apply_pending-IsProjection number_clock 3 waiting_state reply waiting_state-IsProjection

waiting_state-request : index waiting_state.pending town ≡ some request
unfolding index lookup ◌==◌
waiting_state-request = refl

abbrev calls : List (Time × CheckItem)
calls = (4, later_request) ∷ (5, request) ∷ (6, undated_reply) ∷ []

apply_pending-once_example :
    (t : State) × (accepted : Bool) × (u : State) × (apply_pending number_clock 3 waiting_state
        reply
      ≡ some (t, accepted))
    × (apply_all number_clock calls t ≡ some u)
    × (apply_pending number_clock 7 u reply ≡ some (ensure_pending u, false))
apply_pending-once_example =
    apply_pending-once number_clock number_clock-IsRfc3339 3 7 waiting_state reply calls
