-- ===== src/Capability/Reports.antt =====
-- What the reports of pkg/capability/capability.go say.
use uni_chat_sdk.Prelude.{
  Bytes, ◌≡◌, refl, ◌∙◌, ap, ◌==◌, Bool, true, false, ◌||◌, none, some, List, [], ◌∷◌, map,
  if◌then◌else◌, arith,
}
use uni_chat_sdk.Prelude.GoMap.{GoMap, empty, index, put, index-put}
use uni_chat_sdk.Capability.{
  Capability, Report, Result, ids, label, action, available, unsupported, adapter_not_implemented,
  support_set, static_capability, static, apply_result, apply, or_false,
}

pub contains : List Bytes → Bytes → Bool
contains [] id = false
contains (x ∷ xs) id = (x == id) || contains xs id

support_set_lem :
    (set : GoMap Bool) (supported : List Bytes) (id : Bytes)
    → or_false (index (support_set set supported) id)
      ≡ (or_false (index set id) || contains supported id)
unfolding support_set contains
support_set_lem set [] id = ground arith
support_set_lem set (x ∷ xs) id =
    ground (arith, support_set_lem (put set x true) xs id, index-put set x id true)

index-empty : (id : Bytes) → index {V = Bool} empty id ≡ none
unfolding index
index-empty id = refl

-- The entry that `Static` gives a capability.
abbrev pub static_entry : List Bytes → Bytes → Capability
static_entry supported id = record {
  id = id;
  label = label id;
  action = action id;
  status = if contains supported id then available else unsupported;
  reason = if contains supported id then [] else adapter_not_implemented;
}

static_capability_lem :
    (supported : List Bytes) (id : Bytes)
    → static_capability (support_set empty supported) id ≡ static_entry supported id
unfolding static_capability
static_capability_lem supported id =
    ground (arith, support_set_lem empty supported id, index-empty id)

map_congr :
    {A B : Type 0} (f g : A → B) → ((a : A) → f a ≡ g a) → (xs : List A) → map f xs ≡ map g xs
map_congr f g h [] = refl
map_congr f g h (x ∷ xs) = cc (h x, map_congr f g h xs)

map-map_lem :
    {A B C : Type 0} (f : B → C) (g : A → B) (xs : List A)
    → map f (map g xs) ≡ map (λ a. f (g a)) xs
map-map_lem f g [] = refl
map-map_lem f g (x ∷ xs) = ap (◌∷◌ (f (g x))) (map-map_lem f g xs)

-- Whatever ids an adapter names, its report has each known capability once, in the fixed order: as
-- available with no reason where the adapter names it, else as unsupported because not implemented.
-- Ids that are not known leave no trace.
pub static_lem :
    (supported : List Bytes) → (static supported).capabilities ≡ map (static_entry supported) ids
unfolding static
static_lem supported = map_congr _ _ (static_capability_lem supported) ids

apply_result-twice :
    (a b c : GoMap Result)
    → ((k : Bytes) → index c k ≡ (elim (index b k) [ none ↦ index a k | some r ↦ some r ]))
    → (x : Capability) → apply_result b (apply_result a x) ≡ apply_result c x
unfolding apply_result
apply_result-twice a b c h x = ground (arith, h x.id)

-- Applying two sets of results in a row is applying one in which the second set overrides the first.
pub apply-apply :
    (report : Report) (a b c : GoMap Result)
    → ((k : Bytes) → index c k ≡ (elim (index b k) [ none ↦ index a k | some r ↦ some r ]))
    → apply (apply report a) b ≡ apply report c
unfolding apply
apply-apply report a b c h =
    ap (λ xs. record { capabilities = xs })
      (map-map_lem (apply_result b) (apply_result a) report.capabilities
        ∙ map_congr _ _ (apply_result-twice a b c h) report.capabilities)
