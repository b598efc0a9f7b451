-- ===== src/Context/Json.antt =====
-- context/json.ts, on the values that a workflow may pass. An object has its entries in the order of
-- `Object.keys`; a number is its 64-bit pattern; a part that is one of the objects around it is a
-- `cycle`. Getters and the text of an error's reason are left out.
pub mod Laws
use open_dynamic_workflow.Base.{ℕ, Bool, true, false, Option, none, some, Text}

-- `JsonValue`
mutual
  pub data Json : Type 0 where
    null : Json
    boolean : Bool → Json
    number : ℕ → Json
    text : Text → Json
    array : Items → Json
    object : Fields → Json

  pub data Items : Type 0 where
    nil : Items
    item : Json → Items → Items

  pub data Fields : Type 0 where
    end : Fields
    field : Text → Json → Fields → Fields

-- `unknown`
mutual
  pub data JsValue : Type 0 where
    undefined null not_finite opaque cycle : JsValue
    boolean : Bool → JsValue
    number : ℕ → JsValue
    text : Text → JsValue
    array : JsItems → JsValue
    object : (is_plain : Bool) → JsFields → JsValue

  pub data JsItems : Type 0 where
    nil : JsItems
    item : JsValue → JsItems → JsItems

  pub data JsFields : Type 0 where
    end : JsFields
    field : Text → JsValue → JsFields → JsFields

-- `checkAndClone`: none if it throws, always the same kind of error.
unfoldable mutual
  pub check_and_clone : JsValue → Option Json
  check_and_clone undefined = none
  check_and_clone null = some Json.null
  check_and_clone not_finite = none
  check_and_clone opaque = none
  check_and_clone cycle = none
  check_and_clone (boolean b) = some (Json.boolean b)
  check_and_clone (number n) = some (Json.number n)
  check_and_clone (text t) = some (Json.text t)
  check_and_clone (array xs) = elim (clone_items xs) [
    | none ↦ none
    | some ys ↦ some (Json.array ys)
  ]
  check_and_clone (object false fs) = none
  check_and_clone (object true fs) = elim (clone_fields fs) [
    | none ↦ none
    | some gs ↦ some (Json.object gs)
  ]

  pub clone_items : JsItems → Option Items
  clone_items nil = some Items.nil
  clone_items (item x xs) = elim (check_and_clone x) [
    | none ↦ none
    | some y ↦ elim (clone_items xs) [ none ↦ none | some ys ↦ some (Items.item y ys) ]
  ]

  pub clone_fields : JsFields → Option Fields
  clone_fields end = some Fields.end
  clone_fields (field key x fs) = elim (check_and_clone x) [
    | none ↦ none
    | some y ↦ elim (clone_fields fs) [ none ↦ none | some gs ↦ some (Fields.field key y gs) ]
  ]

-- A JSON value as a value of the language.
unfoldable mutual
  pub embed : Json → JsValue
  embed Json.null = JsValue.null
  embed (Json.boolean b) = JsValue.boolean b
  embed (Json.number n) = JsValue.number n
  embed (Json.text t) = JsValue.text t
  embed (Json.array xs) = JsValue.array (embed_items xs)
  embed (Json.object fs) = JsValue.object true (embed_fields fs)

  pub embed_items : Items → JsItems
  embed_items Items.nil = JsItems.nil
  embed_items (Items.item x xs) = JsItems.item (embed x) (embed_items xs)

  pub embed_fields : Fields → JsFields
  embed_fields Fields.end = JsFields.end
  embed_fields (Fields.field key x fs) = JsFields.field key (embed x) (embed_fields fs)
