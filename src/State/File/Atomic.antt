-- ===== src/State/File/Atomic.antt =====
-- What a reader of a file that state/state.go writes can come upon.
use uni_chat_sdk.Prelude.{
  Bytes, ◌==◌, ==_refl, false, Option, none, some, Option-cases, List, [], ◌∷◌, take, ◌≡◌, ◌⊎◌, inl,
  inr, refl, arith, ◌∙◌,
}
use uni_chat_sdk.State.File.{
  Error, File, Disk, private_file, private_dir, Calls, set_file, make_dir, remove_tmp, rename_file,
  fill_tmp, narrow_tmp, write_tmp, write_json,
}

-- A disk on which the file at the path is `f`.
Has : Bytes → Option File → Disk → Type 0
Has path f d = d.files path ≡ f

-- On each disk the file is as it was, or as it shall be.
unfoldable pub Shows : Bytes → Option File → Option File → List Disk → Type 0
Shows path old new [] = Unit
Shows path old new (d ∷ ds) = ((d.files path ≡ old) ⊎ (d.files path ≡ new)) × Shows path old new ds

-- The last disk: an error leaves the file as it was, success has the new file in a private directory.
unfoldable pub Ends : Bytes → Option File → Option File → Error → List Disk → Type 0
Ends path old new e [] = ⊥
Ends path old new none (d ∷ ds) = (d.files path ≡ new) × (d.dir_mode ≡ some private_dir)
Ends path old new (some e) (d ∷ ds) = d.files path ≡ old

unfoldable pub IsAtomic : Bytes → Option File → Option File → List Disk × Error → Type 0
IsAtomic path old new (ds, e) = Shows path old new ds × Ends path old new e ds

set_file-other :
    (d : Disk) (tmp path : Bytes) (f : Option File)
    → (tmp == path) ≡ false
    → (set_file d tmp f).files path ≡ d.files path
unfolding set_file
set_file-other d tmp path f h = rw h refl

set_file-same : (d : Disk) (path : Bytes) (f : Option File) → (set_file d path f).files path ≡ f
unfolding set_file
set_file-same d path f = rw (==_refl path) refl

remove_tmp-other :
    (c : Calls) (d : Disk) (path : Bytes)
    → (c.tmp == path) ≡ false
    → (remove_tmp c d).files path ≡ d.files path
unfolding remove_tmp
remove_tmp-other c d path h = ground (arith, set_file-other d c.tmp path none h)

abbrev new_file : Bytes → Option File
new_file b = some (record { mode = private_file; content = b })

module _ (c : Calls) (path b : Bytes) (old : Option File) (other : (c.tmp == path) ≡ false) where
  -- What each call is given: a path that has shown nothing wrong, and the old file in a private
  -- directory.
  IsBefore : List Disk → Disk → Type 0
  IsBefore past d =
      Shows path old (new_file b) past × (d.files path ≡ old) × (d.dir_mode ≡ some private_dir)

  -- A change of the temporary file.
  goes_on :
      (past : List Disk) (d : Disk) (f : Option File)
      → IsBefore past d
      → IsBefore (d ∷ past) (set_file d c.tmp f)
  unfolding IsBefore Shows set_file
  goes_on past d f (p, k, m) = ((inl k, p), set_file-other d c.tmp path f other ∙ k, m)

  -- A call fails behind the temporary file.
  fails :
      (past : List Disk) (d : Disk) (x : Bytes)
      → IsBefore past d
      → IsAtomic path old (new_file b) (remove_tmp c d ∷ d ∷ past, some x)
  unfolding IsBefore IsAtomic Shows Ends
  fails past d x (p, k, m) = let r = remove_tmp-other c d path other ∙ k in ((inl r, (inl k, p)), r)

  -- The new file has its name.
  renamed :
      (past : List Disk) (d : Disk)
      → IsBefore past d
      → IsAtomic path old
          (new_file b)
          (set_file (set_file d path (new_file b)) c.tmp none ∷ d ∷ past, none)
  unfolding IsBefore IsAtomic Shows Ends set_file
  renamed past d (p, k, m) =
      let named = set_file d path (new_file b) in
      let n = set_file-other named c.tmp path none other ∙ set_file-same d path (new_file b) in
      ((inr n, (inl k, p)), (n, m))

  rename_file-IsAtomic :
      (past : List Disk) (d : Disk)
      → IsBefore past d
      → IsAtomic path old (new_file b) (rename_file c path b past d)
  unfolding rename_file
  rename_file-IsAtomic past d i =
      elim c.rename
        as (λ r. IsAtomic path old (new_file b) (elim r [
          | some e ↦ (remove_tmp c d ∷ d ∷ past, some e)
          | none ↦ (set_file (set_file d path (new_file b)) c.tmp none ∷ d ∷ past, none)
        ])) [ some x ↦ fails past d x i | none ↦ renamed past d i ]

  fill_tmp-IsAtomic :
      (past : List Disk) (d : Disk)
      → IsBefore past d
      → IsAtomic path old (new_file b) (fill_tmp c path b past d)
  fill_tmp-IsAtomic past d i = elim (Option-cases c.write) [
    | inr (x, e) ↦
        let part = set_file d c.tmp (new_file (take c.written b)) in
        let q : fill_tmp c path b past d ≡ (remove_tmp c part ∷ part ∷ d ∷ past, some x) =
          unfold fill_tmp in ground (arith, e) in
        rw q (fails (d ∷ past) part x (goes_on past d _ i))
    | inl e ↦
        let whole = set_file d c.tmp (new_file b) in
        elim (Option-cases c.close) [
          | inr (x, f) ↦
              let q : fill_tmp c path b past d ≡ (remove_tmp c whole ∷ whole ∷ d ∷ past, some x) =
                unfold fill_tmp in ground (arith, e, f) in
              rw q (fails (d ∷ past) whole x (goes_on past d _ i))
          | inl f ↦
              let q : fill_tmp c path b past d ≡ rename_file c path b (d ∷ past) whole =
                unfold fill_tmp in ground (arith, e, f) in
              rw q (rename_file-IsAtomic (d ∷ past) whole (goes_on past d _ i))
        ]
  ]

  narrow_tmp-IsAtomic :
      (past : List Disk) (d : Disk)
      → IsBefore past d
      → IsAtomic path old (new_file b) (narrow_tmp c path b past d)
  narrow_tmp-IsAtomic past d i = elim (Option-cases c.chmod_tmp) [
    | inr (x, e) ↦
        let q : narrow_tmp c path b past d ≡ (remove_tmp c d ∷ d ∷ past, some x) =
          unfold narrow_tmp in ground (arith, e) in
        rw q (fails past d x i)
    | inl e ↦
        let narrow = set_file d c.tmp (new_file []) in
        let q : narrow_tmp c path b past d ≡ fill_tmp c path b (d ∷ past) narrow =
          unfold narrow_tmp in ground (arith, e) in
        rw q (fill_tmp-IsAtomic (d ∷ past) narrow (goes_on past d _ i))
  ]

module _ (c : Calls) (path : Bytes) (old : Option File) (other : (c.tmp == path) ≡ false) where
  -- A call fails before there is a temporary file.
  stops :
      (past : List Disk) (d : Disk) (x : Bytes) (new : Option File)
      → Shows path old new past
      → d.files path ≡ old
      → IsAtomic path old new (d ∷ past, some x)
  unfolding IsAtomic Shows Ends
  stops past d x new p k = ((inl k, p), k)

  write_tmp-IsAtomic :
      (past : List Disk) (d : Disk)
      → IsBefore c path c.marshal.0 old other past d
      → IsAtomic path old (new_file c.marshal.0) (write_tmp c path past d)
  unfolding IsBefore
  write_tmp-IsAtomic past d i = elim (Option-cases c.marshal.1) [
    | inr (x, e) ↦
        let q : write_tmp c path past d ≡ (d ∷ past, some x) =
          unfold write_tmp in ground (arith, e) in
        rw q (stops past d x _ i.0 i.1)
    | inl e ↦ elim (Option-cases c.create) [
      | inr (x, f) ↦
          let q : write_tmp c path past d ≡ (d ∷ past, some x) =
            unfold write_tmp in ground (arith, e, f) in
          rw q (stops past d x _ i.0 i.1)
      | inl f ↦
          let made : Option File = some (record { mode = c.tmp_mode; content = [] }) in
          let fresh = set_file d c.tmp made in
          let q : write_tmp c path past d ≡ narrow_tmp c path c.marshal.0 (d ∷ past) fresh =
            unfold write_tmp in ground (arith, e, f) in
          rw q (
            narrow_tmp-IsAtomic c path c.marshal.0 old other (d ∷ past) fresh
              (goes_on c path c.marshal.0 old other past d made i))
    ]
  ]

files-make_dir : (d : Disk) (path : Bytes) → (make_dir d).files path ≡ d.files path
unfolding make_dir
files-make_dir d path = ground arith

-- Whatever its system calls come to, a write shows at no moment anything but the old file or the whole
-- new one at its path. If it reports an error the file is the old one; if it reports none, the file is
-- the new one, with mode 0600, in a directory of mode 0700. The temporary file has a path of its own.
pub write_json-IsAtomic :
    (c : Calls) (path : Bytes) (d : Disk)
    → (c.tmp == path) ≡ false
    → IsAtomic path
        (d.files path)
        (some (record { mode = private_file; content = c.marshal.0 }))
        (write_json c path d)
write_json-IsAtomic c path d o =
    let old = d.files path in
    let m = files-make_dir d path in
    let first : Shows path old (new_file c.marshal.0) (d ∷ []) = unfold Shows in (inl refl, tt) in
    let past : Shows path old (new_file c.marshal.0) (make_dir d ∷ d ∷ []) =
      unfold Shows in (inl m, (inl refl, tt)) in
    elim (Option-cases c.mkdir) [
      | inr (x, e) ↦
          let q : write_json c path d ≡ (d ∷ [], some x) = unfold write_json in ground (arith, e) in
          rw q (stops c path old o [] d x _ (unfold Shows in tt) refl)
      | inl e ↦ elim (Option-cases c.chmod_dir) [
        | inr (x, f) ↦
            let q : write_json c path d ≡ (make_dir d ∷ d ∷ [], some x) =
              unfold write_json in ground (arith, e, f) in
            rw q (stops c path old o (d ∷ []) (make_dir d) x _ first m)
        | inl f ↦
            let narrow = record (make_dir d) { dir_mode = some private_dir } in
            let q : write_json c path d ≡ write_tmp c path (make_dir d ∷ d ∷ []) narrow =
              unfold write_json in ground (arith, e, f) in
            rw q (
              write_tmp-IsAtomic c path old o (make_dir d ∷ d ∷ []) narrow
                (unfold IsBefore in (past, m, refl)))
      ]
    ]
