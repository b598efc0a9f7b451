-- ===== src/Context/Operations/Examples.antt =====
-- The operations of the workflow context at concrete stores.
use open_dynamic_workflow.Base.{
  list_eq, ◌≡◌, refl, true, false, some, none, [], ◌∷◌, Text, ok, err, ◌>>=◌, codes,
}
use open_dynamic_workflow.Context.Json.{Json, Items, Fields, JsValue, check_and_clone}
use open_dynamic_workflow.Context.Operations.Objects.{find, read, is_inherited, child}
use open_dynamic_workflow.Context.Operations.{
  ContextOperation, mismatch, clone_json_value, context_get, context_has, context_set,
  context_delete, context_merge, context_append, value_of,
}
use open_dynamic_workflow.Context.Operations.Updates.{sets, appends, update}
use open_dynamic_workflow.Context.Operations.Frame.{diverges}
use open_dynamic_workflow.Context.Operations.Safety.{context_set-get, update-get, update-err}

abbrev a : Text
a = codes "a"

abbrev b : Text
b = codes "b"

abbrev c : Text
c = codes "c"

abbrev path : Text
path = codes "a.b"

-- `{ a: { b: 1 } }`
abbrev store : Fields
store = Fields.field a (Json.object (Fields.field b (Json.number 1) Fields.end)) Fields.end

operations : Unit {0}
unfolding context_get context_has context_set context_delete context_merge context_append child find
    list_eq value_of is_inherited
operations = tt
  where
    reads : context_get ContextOperation.get path (a ∷ b ∷ []) store ≡ ok (some (Json.number 1))
    reads = refl

    reads_nothing : context_get ContextOperation.get path (c ∷ b ∷ []) store ≡ ok none
    reads_nothing = refl

    deletes_it :
        context_delete ContextOperation.delete path (a ∷ b ∷ []) store
        ≡ (Fields.field a (Json.object Fields.end) Fields.end, ok true)
    deletes_it = refl

    appends_to_number :
        context_append ContextOperation.append path (a ∷ b ∷ []) (JsValue.number 2) store
        ≡ (store, err (mismatch ContextOperation.append path))
    appends_to_number = refl

    appends_twice :
        (context_append ContextOperation.append c
          (c ∷ [])
          (JsValue.number 2)
          (context_append ContextOperation.append c (c ∷ []) (JsValue.number 1) Fields.end).0).0
        ≡ Fields.field c
            (Json.array (Items.item (Json.number 1) (Items.item (Json.number 2) Items.nil)))
            Fields.end
    appends_twice = refl

    -- An inherited name is there and can be deleted, and a write through it throws halfway.
    has_inherited :
        context_has ContextOperation.has (codes "toString") (codes "toString" ∷ []) Fields.end
        ≡ ok true
    has_inherited = refl

    deletes_inherited :
        context_delete ContextOperation.delete (codes "toString") (codes "toString" ∷ []) Fields.end
        ≡ (Fields.end, ok true)
    deletes_inherited = refl

    sets_halfway :
        context_set ContextOperation.set path
          (a ∷ codes "toString" ∷ b ∷ [])
          JsValue.null
          Fields.end
        ≡ (
          Fields.field a (Json.object Fields.end) Fields.end,
          err (mismatch ContextOperation.set path),
        )
    sets_halfway = refl

set_returns : (context_set ContextOperation.set path (a ∷ c ∷ []) (JsValue.text b) store).1 ≡ ok tt
unfolding context_set child find list_eq check_and_clone read is_inherited
set_returns = refl

context_set-get_example :
    context_get ContextOperation.get path
      (a ∷ c ∷ [])
      (context_set ContextOperation.set path (a ∷ c ∷ []) (JsValue.text b) store).0
    ≡ (clone_json_value (JsValue.text b) >>= λ cloned. ok (some cloned))
context_set-get_example =
    context_set-get ContextOperation.set path a (c ∷ []) ContextOperation.get path (JsValue.text b)
      store set_returns

branch : diverges (a ∷ c ∷ []) (a ∷ b ∷ []) ≡ true
unfolding diverges list_eq
branch = refl

plain : (is_inherited a ≡ false) × (is_inherited b ≡ false)
unfolding is_inherited list_eq
plain = (refl, refl)

update-get_example :
    context_get ContextOperation.get path
      (a ∷ b ∷ [])
      (update (sets (JsValue.text b)) ContextOperation.set path (a ∷ c ∷ []) store).0
    ≡ context_get ContextOperation.get path (a ∷ b ∷ []) store
update-get_example =
    update-get ContextOperation.set path a (c ∷ []) ContextOperation.get path
      (sets (JsValue.text b)) store a (b ∷ []) branch (plain.0, (plain.1, tt))

append_throws :
    (update (appends (JsValue.number 2)) ContextOperation.append path (a ∷ b ∷ []) store).1
    ≡ err (mismatch ContextOperation.append path)
unfolding update context_append child find list_eq check_and_clone read is_inherited
append_throws = refl

update-err_example :
    (update (appends (JsValue.number 2)) ContextOperation.append path (a ∷ b ∷ []) store).0 ≡ store
update-err_example =
    update-err ContextOperation.append path a (b ∷ []) (appends (JsValue.number 2)) store
      (mismatch ContextOperation.append path) (plain.0, (plain.1, tt)) append_throws
