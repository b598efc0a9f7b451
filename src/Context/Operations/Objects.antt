-- ===== src/Context/Operations/Objects.antt =====
-- Objects and arrays of the store: the reads and writes of their properties.
use open_dynamic_workflow.Base.{
  ℕ_eq, List_eq, ◌==◌, ◌≡◌, refl, Bool, true, false, Option, none, some, List, [], ◌∷◌, Text, codes,
  if◌then◌else◌, arith, ◌↔◌,
}
use open_dynamic_workflow.Context.Json.{Json, Items, Fields}

-- An own property.
unfoldable pub find : Text → Fields → Option Json
find key Fields.end = none
find key (Fields.field k v fs) = if k == key then some v else find key fs

-- `Object.defineProperty` or an assignment; a new key comes last (the language puts those that are
-- array indices first, which a path excludes and a merge does not).
unfoldable pub put : Text → Json → Fields → Fields
put key v Fields.end = Fields.field key v Fields.end
put key v (Fields.field k w fs) =
    let rest = put key v fs in if k == key then Fields.field k v fs else Fields.field k w rest

-- `delete`
unfoldable pub drop : Text → Fields → Fields
drop key Fields.end = Fields.end
drop key (Fields.field k w fs) =
    let rest = drop key fs in if k == key then rest else Fields.field k w rest

-- What every object inherits; the segments `__proto__` and `constructor` do not come this far.
abbrev inherited_names : List Text
inherited_names =
    codes "toString"
    ∷ codes "toLocaleString"
    ∷ codes "valueOf"
    ∷ codes "hasOwnProperty"
    ∷ codes "isPrototypeOf"
    ∷ codes "propertyIsEnumerable"
    ∷ codes "__defineGetter__"
    ∷ codes "__defineSetter__"
    ∷ codes "__lookupGetter__"
    ∷ codes "__lookupSetter__"
    ∷ codes "__proto__"
    ∷ codes "constructor"
    ∷ []

unfoldable among : Text → List Text → Bool
among key [] = false
among key (t ∷ ts) = if t == key then true else among key ts

unfoldable pub is_inherited : Text → Bool
unfolding among
is_inherited key = among key inherited_names

-- `object[key]`: undefined, an inherited value, which is no object but for `__proto__`, or an own
-- property.
pub data Read : Type 0 where
  absent inherited : Read
  own : Json → Read

unfoldable pub read : Text → Fields → Read
read key fs = elim (find key fs) [
  | some v ↦ own v
  | none ↦ if is_inherited key then inherited else absent
]

-- Where a path goes on: `undefined` or null, an array, what is no object, or an object.
pub data Child : Type 0 where
  missing listed scalar : Child
  inside : Fields → Child

unfoldable pub child : Read → Child
child absent = missing
child inherited = scalar
child (own Json.null) = missing
child (own (Json.array xs)) = listed
child (own (Json.object fs)) = inside fs
child (own _) = scalar

unfoldable pub put_all : Fields → Fields → Fields
put_all Fields.end target = target
put_all (Fields.field k v fs) target = put_all fs (put k v target)

unfoldable pub push : Items → Json → Items
push Items.nil v = Items.item v Items.nil
push (Items.item x xs) v = Items.item x (push xs v)

pub text_iff : (a b : Text) → (a == b ≡ true) ↔ (a ≡ b)
text_iff a b = List_eq.same_iff a b

pub find-put :
    (key other : Text) (v : Json) (fs : Fields)
    → find other (put key v fs) ≡ (if key == other then some v else find other fs)
unfolding find put
find-put key other v Fields.end = refl
find-put key other v (Fields.field k w fs) =
    ground (arith, find-put key other v fs, text_iff k other, text_iff k key, text_iff key other)

pub find-drop :
    (key other : Text) (fs : Fields)
    → find other (drop key fs) ≡ (if key == other then none else find other fs)
unfolding find drop
find-drop key other Fields.end = ground arith
find-drop key other (Fields.field k w fs) =
    ground (arith, find-drop key other fs, text_iff k other, text_iff k key, text_iff key other)

-- A write of what is there already.
pub put_same : (key : Text) (v : Json) (fs : Fields) → find key fs ≡ some v → put key v fs ≡ fs
unfolding find put
put_same key v Fields.end h = cc
put_same key v (Fields.field k w fs) h = ground (arith, h, text_iff k key, put_same key v fs)
