-- ===== src/Workflow/Json/Examples.antt =====
-- The cloning of JSON values at concrete values.
use open_dynamic_workflow.Base.{list_eq, true, none, some, ◌≡◌, refl, codes}
use open_dynamic_workflow.Context.Json.{JsValue, JsItems, JsFields}
use open_dynamic_workflow.Workflow.Json.{
  Clone, CloneItems, CloneFields, Prototype, as_value, clone_recursive, is_constructed,
  is_named_object,
}
use open_dynamic_workflow.Workflow.Json.Laws.{HasNoProto, clone-idempotent}

-- `{ "__proto__": x, "a": [true] }`, as a parser of JSON gives it.
abbrev value : JsValue → JsValue
value x = JsValue.object true (
    JsFields.field (codes "__proto__") x (
      JsFields.field (codes "a") (JsValue.array (JsItems.item (JsValue.boolean true) JsItems.nil))
        JsFields.end))

abbrev cloned : Prototype → Clone
cloned p = Clone.object p (
    CloneFields.field (codes "a")
      (Clone.array (CloneItems.item (Clone.boolean true) CloneItems.nil)) CloneFields.end)

abbrev with_constructor : JsValue
with_constructor =
    JsValue.object true (JsFields.field (codes "constructor") (JsValue.number 1) JsFields.end)

abbrev constructor_clone : Clone
constructor_clone =
    Clone.object Prototype.ordinary
      (CloneFields.field (codes "constructor") (Clone.number 1) CloneFields.end)

clones : Unit {0}
unfolding clone_recursive as_value is_constructed is_named_object list_eq
clones = tt
  where
    -- The key `__proto__` is lost.
    loses_proto : clone_recursive (value (JsValue.number 1)) ≡ some (cloned Prototype.ordinary)
    loses_proto = refl

    -- It may set a prototype that the next clone throws for.
    sets_prototype :
        clone_recursive (value with_constructor)
        ≡ some (cloned (Prototype.set_to constructor_clone))
    sets_prototype = refl

    throws_for_prototype :
        clone_recursive (as_value (cloned (Prototype.set_to constructor_clone))) ≡ none
    throws_for_prototype = refl

    -- Or one that the next clone loses.
    loses_prototype :
        clone_recursive (as_value (cloned Prototype.no_prototype))
        ≡ some (cloned Prototype.ordinary)
    loses_prototype = refl

to_null : clone_recursive (value JsValue.null) ≡ some (cloned Prototype.no_prototype)
unfolding clone_recursive list_eq
to_null = refl

from_null :
    clone_recursive (as_value (cloned Prototype.no_prototype)) ≡ some (cloned Prototype.ordinary)
unfolding clone_recursive as_value list_eq
from_null = refl

clone-idempotent_example :
    HasNoProto (as_value (cloned Prototype.no_prototype))
    × (clone_recursive (as_value (cloned Prototype.ordinary)) ≡ some (cloned Prototype.ordinary))
clone-idempotent_example =
    clone-idempotent (value JsValue.null) (cloned Prototype.no_prototype)
      (cloned Prototype.ordinary) to_null from_null
