-- ===== src/State/Store/Reload.antt =====
-- What a load finds after a save (state/state.go).
use uni_chat_sdk.Prelude.{
  Bytes, ◌≡◌, sym, ap, ◌∙◌, ◌==◌, false, Option, none, some, List, [], ◌∷◌, arith, inl, inr,
}
use uni_chat_sdk.Prelude.GoMap.{index}
use uni_chat_sdk.State.Defs.{State}
use uni_chat_sdk.State.File.{Error, Disk, File, Calls, write_json, private_file}
use uni_chat_sdk.State.File.Atomic.{IsAtomic, Ends, write_json-IsAtomic}
use uni_chat_sdk.State.Load.{initial_state, contents, load_state}
use uni_chat_sdk.State.Load.Normal.{IsNormal, load_state-IsNormal}
use uni_chat_sdk.State.Store.{save_state, read_file, reload}

-- Two states that hold the same under every key, a map that is nil counting as an empty one.
pub record Alike (d s : State) : Type 0 where
  pub cursors : (k : Bytes) → index d.cursors k ≡ index s.cursors k
  pub versions : (k : Bytes) → index d.cursor_versions k ≡ index s.cursor_versions k
  pub successors : (k : Bytes) → index d.cursor_successors k ≡ index s.cursor_successors k
  pub activity : (k : Bytes) → index d.activity k ≡ index s.activity k
  pub stamps : (k : Bytes) → index d.pending_revision k ≡ index s.pending_revision k
  pub resolved : (k : Bytes) → index d.pending_resolved_at k ≡ index s.pending_resolved_at k
  pub pending : (k : Bytes) → index d.pending k ≡ index s.pending k
  pub watch : d.watch ≡ s.watch
  pub last_check : d.last_check ≡ s.last_check
  pub revision : d.revision ≡ s.revision

IsNormal-Alike : (d s t : State) → Alike d s → IsNormal d t → IsNormal s t
IsNormal-Alike d s t a n = record {
  made = n.made;
  cursors = λ k. n.cursors k ∙ a.cursors k;
  versions = λ k. n.versions k ∙ a.versions k;
  successors = λ k. n.successors k ∙ a.successors k;
  activity = λ k. n.activity k ∙ a.activity k;
  stamps = λ k. n.stamps k ∙ a.stamps k;
  resolved = λ k. n.resolved k ∙ a.resolved k;
  watch = n.watch ∙ a.watch;
  last_check = n.last_check ∙ a.last_check;
  pending = λ k. ground (arith, n.pending k, a.pending k);
  covers = λ k v h. n.covers k v (a.stamps k ∙ h);
  grows = ground (arith, n.grows, a.revision);
  attained = elim n.attained [
    | inl e ↦ inl (e ∙ a.revision)
    | inr (k, e) ↦ inr (k, sym (a.stamps k) ∙ e)
  ];
}

-- The last disk of a run of calls.
unfoldable pub newest : Disk → List Disk → Disk
newest d [] = d
newest d (e ∷ es) = e

pub newest-files :
    (path : Bytes) (old new : Option File) (d : Disk) (ds : List Disk) (e : Error)
    → IsAtomic path old new (ds, e)
    → ((e ≡ none → (newest d ds).files path ≡ new)
        × ((x : Bytes) → e ≡ some x → (newest d ds).files path ≡ old))
unfolding IsAtomic Ends newest
newest-files path old new d [] e i = absurd i.1
newest-files path old new d (f ∷ fs) none i = ((λ h. i.1.0), (λ x h. absurd cc))
newest-files path old new d (f ∷ fs) (some y) i = ((λ h. absurd cc), (λ x h. i.1))

module _ (path : Bytes) (decode : Bytes → State → State × Option Bytes) where
  reload-new :
      (d : Disk) (b : Bytes)
      → d.files path ≡ some (record { mode = private_file; content = b })
      → reload path decode d ≡ load_state decode (contents b)
  unfolding reload read_file
  reload-new d b h =
      let q : read_file path d ≡ contents b = ground (arith, h) in ap (load_state decode) q

  reload-same :
      (d e : Disk) → e.files path ≡ d.files path → reload path decode e ≡ reload path decode d
  unfolding reload read_file
  reload-same d e h =
      let q : read_file path e ≡ read_file path d = ground (arith, h) in ap (load_state decode) q

  -- With a JSON codec that reads the state's text as an alike state: if a save reports no error, a load
  -- of what it leaves gives the saved state in normal form, without an error; if it reports one, a load
  -- gives what it gave before. The temporary file has a path of its own.
  pub save_state-reload :
      (encode : State → Bytes × Error) (c : Calls) (s read : State) (d : Disk)
      → (c.tmp == path) ≡ false
      → decode (encode s).0 initial_state ≡ (read, none)
      → Alike read s
      → let r = save_state path encode c s d in
        (r.1 ≡ none → (t : State) × (reload path decode (newest d r.0) ≡ (t, none)) × IsNormal s t)
        × ((e : Bytes) → r.1 ≡ some e → reload path decode (newest d r.0) ≡ reload path decode d)
  unfolding save_state
  save_state-reload encode c s read d o h a =
      let call = record c { marshal = encode s } in
      let r = write_json call path d in
      let (good, bad) =
        newest-files path (d.files path) _ d r.0 r.1 (write_json-IsAtomic call path d o) in
      let (t, l, n) = load_state-IsNormal decode (encode s).0 read h in
      (
        (λ e.
            (t, reload-new (newest d r.0) (encode s).0 (good e) ∙ l, IsNormal-Alike read s t a n)),
        (λ x e. reload-same d (newest d r.0) (bad x e)),
      )
