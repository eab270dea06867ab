-- ===== src/State/Merge/Gather.antt =====
-- The events of the groups of `MergePending` (state/state.go), and how a write to one group changes
-- them.
use mathlib.Core.List.{Perm, perm_middle, append_assoc, append-nil}
use mathlib.Core.List.Perm
use mathlib.Core.Path.{subst}
use uni_chat_sdk.Prelude.{
  Bytes, ◌≡◌, ◌≢◌, refl, sym, ◌∙◌, List, [], ◌∷◌, ◌++◌, none, some, inl, inr, ◌⊎◌,
}
use uni_chat_sdk.Prelude.GoMap.{GoMap, index, put, index-put_self, index-put_ne}
use uni_chat_sdk.Protocol.Types.{CheckItem}
use uni_chat_sdk.State.Merge.{Groups, or_none}

-- The groups' events, one group after the other.
unfoldable pub gather : GoMap (List CheckItem) → List Bytes → List CheckItem
gather by_channel [] = []
gather by_channel (c ∷ order) = or_none (index by_channel c) ++ gather by_channel order

abbrev pub Absent : Bytes → List Bytes → Type 0
Absent c [] = Unit {0}
Absent c (d ∷ order) = (c ≢ d) × Absent c order

abbrev pub Present : Bytes → List Bytes → Type 0
Present c [] = ⊥
Present c (d ∷ order) = (c ≡ d) ⊎ Present c order

abbrev pub Distinct : List Bytes → Type 0
Distinct [] = Unit {0}
Distinct (c ∷ order) = Absent c order × Distinct order

pub record IsGrouped (g : Groups) : Type 0 where
  pub distinct : Distinct g.order
  pub absent : (c : Bytes) → index g.by_channel c ≡ none → Absent c g.order
  pub present :
      (c : Bytes) (batch : List CheckItem) → index g.by_channel c ≡ some batch → Present c g.order

pub gather-put-Absent :
    (by_channel : GoMap (List CheckItem)) (c : Bytes) (batch : List CheckItem) (order : List Bytes)
    → Absent c order
    → gather (put by_channel c batch) order ≡ gather by_channel order
unfolding gather
gather-put-Absent m c batch [] h = refl
gather-put-Absent m c batch (d ∷ order) h =
    rw (index-put_ne m c d batch (λ e. h.0 (sym e)), gather-put-Absent m c batch order h.1)

pub gather-append :
    (by_channel : GoMap (List CheckItem)) (xs ys : List Bytes)
    → gather by_channel (xs ++ ys) ≡ gather by_channel xs ++ gather by_channel ys
unfolding gather
gather-append m [] ys = refl
gather-append m (x ∷ xs) ys = rw (gather-append m xs ys, append_assoc)

Present-ne-Absent : (x c : Bytes) (order : List Bytes) → Absent x order → Present c order → x ≢ c
Present-ne-Absent x c [] a q e = q
Present-ne-Absent x c (d ∷ order) a (inl q) e = a.0 (e ∙ q)
Present-ne-Absent x c (d ∷ order) a (inr q) e = Present-ne-Absent x c order a.1 q e

gather-put_head :
    (by_channel : GoMap (List CheckItem)) (c : Bytes) (batch : List CheckItem) (item : CheckItem)
    (order : List Bytes)
    → index by_channel c ≡ some batch
    → Absent c order
    → Perm
        (or_none (index (put by_channel c (batch ++ item ∷ [])) c)
          ++ gather (put by_channel c (batch ++ item ∷ [])) order)
        (item ∷ (or_none (index by_channel c) ++ gather by_channel order))
gather-put_head m c batch item order h a =
    rw
      (
        index-put_self m c (batch ++ item ∷ []),
        gather-put-Absent m c (batch ++ item ∷ []) order a,
        h,
        append_assoc,
      )
      (perm_middle batch (gather m order))

pub gather-put_present :
    (by_channel : GoMap (List CheckItem)) (c : Bytes) (batch : List CheckItem) (item : CheckItem)
    (order : List Bytes)
    → index by_channel c ≡ some batch
    → Distinct order
    → Present c order
    → Perm (gather (put by_channel c (batch ++ item ∷ [])) order) (item ∷ gather by_channel order)
unfolding gather
gather-put_present m c batch item [] h d q = absurd q
gather-put_present m c batch item (x ∷ order) h d (inl e) =
    subst
      (λ y.
        Perm
          (or_none (index (put m c (batch ++ item ∷ [])) y)
            ++ gather (put m c (batch ++ item ∷ [])) order)
          (item ∷ (or_none (index m y) ++ gather m order)))
      e (gather-put_head m c batch item order h (subst (λ y. Absent y order) (sym e) d.0))
gather-put_present m c batch item (x ∷ order) h d (inr q) =
    rw (index-put_ne m c x (batch ++ item ∷ []) (Present-ne-Absent x c order d.0 q)) (
      Perm.trans
        (Perm.append_left (or_none (index m x)) (gather-put_present m c batch item order h d.1 q))
        (perm_middle (or_none (index m x)) (gather m order)))

pub Absent-append :
    (c d : Bytes) (order : List Bytes) → Absent c order → c ≢ d → Absent c (order ++ d ∷ [])
Absent-append c d [] a h = (h, tt)
Absent-append c d (x ∷ order) a h = (a.0, Absent-append c d order a.1 h)

pub Present-append :
    (c d : Bytes) (order : List Bytes) → Present c order → Present c (order ++ d ∷ [])
Present-append c d [] q = absurd q
Present-append c d (x ∷ order) (inl e) = inl e
Present-append c d (x ∷ order) (inr q) = inr (Present-append c d order q)

pub Present-last : (d : Bytes) (order : List Bytes) → Present d (order ++ d ∷ [])
Present-last d [] = inl refl
Present-last d (x ∷ order) = inr (Present-last d order)

pub Distinct-append :
    (d : Bytes) (order : List Bytes) → Distinct order → Absent d order → Distinct (order ++ d ∷ [])
Distinct-append d [] h a = (tt, tt)
Distinct-append d (x ∷ order) h a =
    (Absent-append x d order h.0 (λ e. a.0 (sym e)), Distinct-append d order h.1 a.1)

pub perm-append_last : (item : CheckItem) (xs : List CheckItem) → Perm (item ∷ xs) (xs ++ item ∷ [])
perm-append_last item xs =
    Perm.symm (subst (λ ys. Perm (xs ++ item ∷ []) (item ∷ ys)) (append-nil xs) (perm_middle xs []))
