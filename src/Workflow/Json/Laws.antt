-- ===== src/Workflow/Json/Laws.antt =====
-- The clones of a value, and the clones of these.
use open_dynamic_workflow.Base.{
  ◌≡◌, refl, true, false, Option, none, some, Text, Bool-cases, inl, inr, subst,
}
use open_dynamic_workflow.Context.Json.{JsValue, JsItems, JsFields}
use open_dynamic_workflow.Workflow.Json.{
  Clone, CloneItems, Prototype, Cloned, is_proto, as_value, as_items, as_fields, assign,
  clone_recursive, clone_array, clone_object,
}

-- No object of the value has an own key `__proto__`.
unfoldable mutual
  pub HasNoProto : JsValue → Type 0
  HasNoProto (JsValue.array xs) = HasNoProtoItems xs
  HasNoProto (JsValue.object p fs) = HasNoProtoFields fs
  HasNoProto _ = Unit

  pub HasNoProtoItems : JsItems → Type 0
  HasNoProtoItems JsItems.nil = Unit
  HasNoProtoItems (JsItems.item x xs) = HasNoProto x × HasNoProtoItems xs

  pub HasNoProtoFields : JsFields → Type 0
  HasNoProtoFields JsFields.end = Unit
  HasNoProtoFields (JsFields.field key x fs) =
      (is_proto key ≡ false) × HasNoProto x × HasNoProtoFields fs

-- The clone is its own clone, and has no such key; nothing is said of none.
abbrev Stable : Option Clone → Type 0
Stable none = Unit
Stable (some j) = clone_recursive (as_value j) ≡ some j

abbrev StableItems : Option CloneItems → Type 0
StableItems none = Unit
StableItems (some xs) = clone_array (as_items xs) ≡ some xs

abbrev StableObject : Option Cloned → Type 0
StableObject none = Unit
StableObject (some o) =
    (o.prototype ≡ Prototype.ordinary) × (clone_object (as_fields o.fields) ≡ some o)

Stable-array :
    (o : Option CloneItems)
    → StableItems o
    → Stable (elim o [ none ↦ none | some ys ↦ some (Clone.array ys) ])
unfolding clone_recursive as_value
Stable-array none h = tt
Stable-array (some ys) h = rw h refl

Stable-object :
    (o : Option Cloned)
    → StableObject o
    → Stable (elim o [ none ↦ none | some r ↦ some (Clone.object r.prototype r.fields) ])
unfolding clone_recursive as_value
Stable-object none h = tt
Stable-object (some r) (p, h) = rw p (rw (h, p) refl)

StableItems-item :
    (o : Option Clone) (p : Option CloneItems)
    → Stable o
    → StableItems p
    → StableItems (elim o [
      | none ↦ none
      | some y ↦ elim p [ none ↦ none | some ys ↦ some (CloneItems.item y ys) ]
    ])
unfolding clone_recursive as_value
StableItems-item none p h k = tt
StableItems-item (some y) none h k = tt
StableItems-item (some y) (some ys) h k = rw (h, k) refl

StableObject-field :
    (key : Text) (o : Option Clone) (p : Option Cloned)
    → is_proto key ≡ false
    → Stable o
    → StableObject p
    → StableObject
        (elim o [ none ↦ none | some y ↦ elim p [ none ↦ none | some r ↦ some (assign key y r) ] ])
unfolding clone_recursive as_value
StableObject-field key none p e h k = tt
StableObject-field key (some y) none e h k = tt
StableObject-field key (some y) (some r) e h k = rw e (k.0, rw (h, k.1, e) refl)

mutual
  unfolding clone_recursive as_value HasNoProto

  clone_recursive-Stable : (v : JsValue) → HasNoProto v → Stable (clone_recursive v)
  clone_recursive-Stable JsValue.undefined h = tt
  clone_recursive-Stable JsValue.null h = refl
  clone_recursive-Stable JsValue.not_finite h = tt
  clone_recursive-Stable JsValue.opaque h = tt
  clone_recursive-Stable JsValue.cycle h = tt
  clone_recursive-Stable (JsValue.boolean b) h = refl
  clone_recursive-Stable (JsValue.number n) h = refl
  clone_recursive-Stable (JsValue.text t) h = refl
  clone_recursive-Stable (JsValue.array xs) h =
      Stable-array (clone_array xs) (clone_array-Stable xs h)
  clone_recursive-Stable (JsValue.object false fs) h = tt
  clone_recursive-Stable (JsValue.object true fs) h =
      Stable-object (clone_object fs) (clone_object-Stable fs h)

  clone_array-Stable : (xs : JsItems) → HasNoProtoItems xs → StableItems (clone_array xs)
  clone_array-Stable JsItems.nil h = refl
  clone_array-Stable (JsItems.item x xs) h =
      StableItems-item (clone_recursive x) (clone_array xs) (clone_recursive-Stable x h.0)
        (clone_array-Stable xs h.1)

  clone_object-Stable : (fs : JsFields) → HasNoProtoFields fs → StableObject (clone_object fs)
  clone_object-Stable JsFields.end h = (refl, refl)
  clone_object-Stable (JsFields.field key x fs) h =
      StableObject-field key (clone_recursive x) (clone_object fs) h.0
        (clone_recursive-Stable x h.1) (clone_object-Stable fs h.2)

-- What holds of a value that is there.
abbrev OfAny {ℓ} : {A : Type ℓ} → (A → Type 0) → Option A → Type 0
OfAny P none = Unit
OfAny P (some a) = P a

abbrev IsBare : Clone → Type 0
IsBare j = HasNoProto (as_value j)

abbrev AreBare : CloneItems → Type 0
AreBare xs = HasNoProtoItems (as_items xs)

abbrev HasBare : Cloned → Type 0
HasBare o = HasNoProtoFields (as_fields o.fields)

IsBare-array :
    (o : Option CloneItems)
    → OfAny AreBare o
    → OfAny IsBare (elim o [ none ↦ none | some ys ↦ some (Clone.array ys) ])
unfolding HasNoProto as_value
IsBare-array none h = tt
IsBare-array (some ys) h = h

IsBare-object :
    (o : Option Cloned)
    → OfAny HasBare o
    → OfAny IsBare (elim o [ none ↦ none | some r ↦ some (Clone.object r.prototype r.fields) ])
unfolding HasNoProto as_value
IsBare-object none h = tt
IsBare-object (some r) h = h

AreBare-item :
    (o : Option Clone) (p : Option CloneItems)
    → OfAny IsBare o
    → OfAny AreBare p
    → OfAny AreBare (elim o [
      | none ↦ none
      | some y ↦ elim p [ none ↦ none | some ys ↦ some (CloneItems.item y ys) ]
    ])
unfolding HasNoProto as_value
AreBare-item none p h k = tt
AreBare-item (some y) none h k = tt
AreBare-item (some y) (some ys) h k = (h, k)

HasBare-field :
    (key : Text) (o : Option Clone) (p : Option Cloned)
    → OfAny IsBare o
    → OfAny HasBare p
    → OfAny HasBare
        (elim o [ none ↦ none | some y ↦ elim p [ none ↦ none | some r ↦ some (assign key y r) ] ])
unfolding HasNoProto as_value
HasBare-field key none p h k = tt
HasBare-field key (some y) none h k = tt
HasBare-field key (some y) (some r) h k = elim (Bool-cases (is_proto key)) [
  | inl e ↦ rw e k
  | inr e ↦ rw e (e, h, k)
]

mutual
  unfolding clone_recursive as_value HasNoProto

  clone_recursive-IsBare : (v : JsValue) → OfAny IsBare (clone_recursive v)
  clone_recursive-IsBare JsValue.undefined = tt
  clone_recursive-IsBare JsValue.null = tt
  clone_recursive-IsBare JsValue.not_finite = tt
  clone_recursive-IsBare JsValue.opaque = tt
  clone_recursive-IsBare JsValue.cycle = tt
  clone_recursive-IsBare (JsValue.boolean b) = tt
  clone_recursive-IsBare (JsValue.number n) = tt
  clone_recursive-IsBare (JsValue.text t) = tt
  clone_recursive-IsBare (JsValue.array xs) = IsBare-array (clone_array xs) (clone_array-AreBare xs)
  clone_recursive-IsBare (JsValue.object false fs) = tt
  clone_recursive-IsBare (JsValue.object true fs) =
      IsBare-object (clone_object fs) (clone_object-HasBare fs)

  clone_array-AreBare : (xs : JsItems) → OfAny AreBare (clone_array xs)
  clone_array-AreBare JsItems.nil = tt
  clone_array-AreBare (JsItems.item x xs) =
      AreBare-item (clone_recursive x) (clone_array xs) (clone_recursive-IsBare x)
        (clone_array-AreBare xs)

  clone_object-HasBare : (fs : JsFields) → OfAny HasBare (clone_object fs)
  clone_object-HasBare JsFields.end = tt
  clone_object-HasBare (JsFields.field key x fs) =
      HasBare-field key (clone_recursive x) (clone_object fs) (clone_recursive-IsBare x)
        (clone_object-HasBare fs)

-- A value without the key is cloned to what is its own clone.
pub clone-stable :
    (v : JsValue) (j : Clone)
    → HasNoProto v
    → clone_recursive v ≡ some j
    → clone_recursive (as_value j) ≡ some j
clone-stable v j n h = subst Stable h (clone_recursive-Stable v n)

-- A clone has no such key.
pub clone-HasNoProto :
    (v : JsValue) (j : Clone) → clone_recursive v ≡ some j → HasNoProto (as_value j)
clone-HasNoProto v j h = subst (OfAny IsBare) h (clone_recursive-IsBare v)

-- A clone has no own key `__proto__` in any of its objects, and what it is cloned to, if it can be
-- cloned, is its own clone.
pub clone-idempotent :
    (v : JsValue) (j k : Clone)
    → clone_recursive v ≡ some j
    → clone_recursive (as_value j) ≡ some k
    → HasNoProto (as_value j) × (clone_recursive (as_value k) ≡ some k)
clone-idempotent v j k h e = let n = clone-HasNoProto v j h in (n, clone-stable (as_value j) k n e)
