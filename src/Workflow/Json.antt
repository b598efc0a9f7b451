-- ===== src/Workflow/Json.antt =====
-- workflow/json.ts, on the values of context/json.ts. An assignment to the key `__proto__` sets the
-- prototype of the clone and no entry, and a later clone tests the prototype; so a clone is a value
-- with prototypes. An object that is plain is one whose prototype passes that test. Getters, holes of
-- arrays and the texts of errors are left out.
pub mod Laws
mod Examples
use open_dynamic_workflow.Base.{
  ℕ, ℕ_eq, List_eq, ◌==◌, Bool, true, false, Option, none, some, Text, codes, if◌then◌else◌,
}
use open_dynamic_workflow.Context.Json.{JsValue, JsItems, JsFields}

-- What `cloneRecursive` returns.
mutual
  pub data Clone : Type 0 where
    null : Clone
    boolean : Bool → Clone
    number : ℕ → Clone
    text : Text → Clone
    array : CloneItems → Clone
    object : Prototype → CloneFields → Clone

  pub data CloneItems : Type 0 where
    nil : CloneItems
    item : Clone → CloneItems → CloneItems

  pub data CloneFields : Type 0 where
    end : CloneFields
    field : Text → Clone → CloneFields → CloneFields

  -- `Object.prototype`, none, or another clone, which is an object or an array.
  pub data Prototype : Type 0 where
    ordinary no_prototype : Prototype
    set_to : Clone → Prototype

abbrev pub is_proto : Text → Bool
is_proto key = key == codes "__proto__"

-- `=== "Object"`
abbrev is_object_text : Clone → Bool
is_object_text (Clone.text t) = t == codes "Object"
is_object_text _ = false

-- `x?.name === "Object"` and `x.constructor?.name === "Object"`, the properties being those of the
-- object itself or of its prototypes. Of what they end at only `Object` has the name.
unfoldable mutual
  pub is_named_object : Clone → Bool
  is_named_object (Clone.object p fs) = named_by fs (prototype_named p)
  is_named_object _ = false

  pub named_by : CloneFields → Bool → Bool
  named_by CloneFields.end inherited = inherited
  named_by (CloneFields.field key x fs) inherited =
      let rest = named_by fs inherited in if key == codes "name" then is_object_text x else rest

  pub prototype_named : Prototype → Bool
  prototype_named (Prototype.set_to c) = is_named_object c
  prototype_named _ = false

unfoldable mutual
  unfolding is_named_object

  pub is_constructed : Clone → Bool
  is_constructed (Clone.object p fs) = constructed_by fs (prototype_constructed p)
  is_constructed _ = false

  pub constructed_by : CloneFields → Bool → Bool
  constructed_by CloneFields.end inherited = inherited
  constructed_by (CloneFields.field key x fs) inherited =
      let rest = constructed_by fs inherited in
      if key == codes "constructor" then is_named_object x else rest

  pub prototype_constructed : Prototype → Bool
  prototype_constructed Prototype.ordinary = true
  prototype_constructed Prototype.no_prototype = false
  prototype_constructed (Prototype.set_to c) = is_constructed c

-- The test of an object's prototype: `proto` is null, `Object.prototype`, or has a constructor with the
-- name `Object`.
abbrev pub passes : Prototype → Bool
passes Prototype.ordinary = true
passes Prototype.no_prototype = true
passes (Prototype.set_to c) = is_constructed c

-- A clone as a value that is cloned again.
unfoldable mutual
  unfolding is_constructed

  pub as_value : Clone → JsValue
  as_value Clone.null = JsValue.null
  as_value (Clone.boolean b) = JsValue.boolean b
  as_value (Clone.number n) = JsValue.number n
  as_value (Clone.text t) = JsValue.text t
  as_value (Clone.array xs) = JsValue.array (as_items xs)
  as_value (Clone.object p fs) = JsValue.object (passes p) (as_fields fs)

  pub as_items : CloneItems → JsItems
  as_items CloneItems.nil = JsItems.nil
  as_items (CloneItems.item x xs) = JsItems.item (as_value x) (as_items xs)

  pub as_fields : CloneFields → JsFields
  as_fields CloneFields.end = JsFields.end
  as_fields (CloneFields.field key x fs) = JsFields.field key (as_value x) (as_fields fs)

-- An object under construction.
pub record Cloned : Type 0 where
  pub prototype : Prototype
  pub fields : CloneFields

-- `cloned.__proto__ = val`, which does nothing with a primitive value.
abbrev pub set_prototype : Clone → Prototype → Prototype
set_prototype Clone.null p = Prototype.no_prototype
set_prototype (Clone.array xs) p = Prototype.set_to (Clone.array xs)
set_prototype (Clone.object q fs) p = Prototype.set_to (Clone.object q fs)
set_prototype _ p = p

-- `cloned[key] = val`, before the entries that follow it.
abbrev pub assign : Text → Clone → Cloned → Cloned
assign key x rest =
    if is_proto key
    then record { prototype = set_prototype x rest.prototype; fields = rest.fields }
    else record { prototype = rest.prototype; fields = CloneFields.field key x rest.fields }

-- `cloneRecursive`: none if it throws.
unfoldable mutual
  pub clone_recursive : JsValue → Option Clone
  clone_recursive JsValue.undefined = none
  clone_recursive JsValue.null = some Clone.null
  clone_recursive JsValue.not_finite = none
  clone_recursive JsValue.opaque = none
  clone_recursive JsValue.cycle = none
  clone_recursive (JsValue.boolean b) = some (Clone.boolean b)
  clone_recursive (JsValue.number n) = some (Clone.number n)
  clone_recursive (JsValue.text t) = some (Clone.text t)
  clone_recursive (JsValue.array xs) = elim (clone_array xs) [
    | none ↦ none
    | some ys ↦ some (Clone.array ys)
  ]
  clone_recursive (JsValue.object false fs) = none
  clone_recursive (JsValue.object true fs) = elim (clone_object fs) [
    | none ↦ none
    | some o ↦ some (Clone.object o.prototype o.fields)
  ]

  pub clone_array : JsItems → Option CloneItems
  clone_array JsItems.nil = some CloneItems.nil
  clone_array (JsItems.item x xs) = elim (clone_recursive x) [
    | none ↦ none
    | some y ↦ elim (clone_array xs) [ none ↦ none | some ys ↦ some (CloneItems.item y ys) ]
  ]

  pub clone_object : JsFields → Option Cloned
  clone_object JsFields.end =
      some (record { prototype = Prototype.ordinary; fields = CloneFields.end })
  clone_object (JsFields.field key x fs) = elim (clone_recursive x) [
    | none ↦ none
    | some y ↦ elim (clone_object fs) [ none ↦ none | some o ↦ some (assign key y o) ]
  ]

-- `cloneJsonValue`
abbrev pub clone_json_value : JsValue → Option Clone
clone_json_value v = clone_recursive v
