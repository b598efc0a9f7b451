-- ===== src/Context/Runtime/Examples.antt =====
-- The facade of the workflow context at concrete calls; a value's bytes are counted as ten.
use open_dynamic_workflow.Base.{list_eq, ℕ, ◌≡◌, refl, some, [], ◌∷◌, codes, ok, err}
use open_dynamic_workflow.Context.Json.{Json, Fields, JsValue, check_and_clone}
use open_dynamic_workflow.Context.Operations.Objects.{child, find, read, is_inherited}
use open_dynamic_workflow.Context.Operations.{ContextOperation, mismatch, value_of}
use open_dynamic_workflow.Context.Path.{NormalizedContextPath, parse_context_path, all_digits}
use open_dynamic_workflow.Context.Runtime.{
  ContextState, resolve_path, get, set, append, delete, scope,
}
use open_dynamic_workflow.Context.Runtime.Laws.{set-get}

abbrev bytes : Json → ℕ
bytes j = 10

abbrev empty : ContextState
empty = record { data_ = Fields.end; tombstones = [] }

abbrev with_value : ContextState
with_value = (set bytes (codes "plan" ∷ []) (codes "a.b") (JsValue.number 1) empty).0

paths : Unit {0}
unfolding parse_context_path resolve_path scope list_eq all_digits
paths = tt
  where
    trims :
        parse_context_path ContextOperation.get (codes " a . b")
        ≡ ok record {
          raw = codes " a . b";
          normalized = codes "a.b";
          segments = codes "a" ∷ codes "b" ∷ [];
        }
    trims = refl

    under_prefix :
        resolve_path (codes "plan" ∷ []) ContextOperation.get (codes "a")
        ≡ ok record {
          raw = codes "plan.a";
          normalized = codes "plan.a";
          segments = codes "plan" ∷ codes "a" ∷ [];
        }
    under_prefix = refl

    at_root :
        resolve_path (codes "plan" ∷ []) ContextOperation.get (codes "plan.a")
        ≡ ok record {
          raw = codes "plan.a";
          normalized = codes "plan.a";
          segments = codes "plan" ∷ codes "a" ∷ [];
        }
    at_root = refl

    scopes : scope bytes (codes "plan" ∷ []) (codes " x") ≡ ok (codes "plan" ∷ codes "x" ∷ [])
    scopes = refl

facade : Unit {0}
unfolding set get append delete list_eq all_digits child find is_inherited value_of read
facade = tt
  where
    reads_back : get bytes (codes "plan" ∷ []) (codes "a.b") with_value ≡ ok (some (Json.number 1))
    reads_back = refl

    reads_from_outside : get bytes [] (codes "plan.a.b") with_value ≡ ok (some (Json.number 1))
    reads_from_outside = refl

    buries : (delete bytes [] (codes "plan.a") with_value).0.tombstones ≡ codes "plan.a" ∷ []
    buries = refl

    -- An append that throws has removed the tombstone of the path below it.
    append_fails :
        append bytes []
          (codes "plan")
          (JsValue.number 2)
          (delete bytes [] (codes "plan.a") with_value).0
        ≡ (
          record {
            data_ = Fields.field (codes "plan") (Json.object Fields.end) Fields.end;
            tombstones = [];
          },
          err (mismatch ContextOperation.append (codes "plan")),
        )
    append_fails = refl

set_returns : (set bytes (codes "plan" ∷ []) (codes "a.b") (JsValue.number 1) empty).1 ≡ ok tt
unfolding set list_eq all_digits child find is_inherited value_of read
set_returns = refl

set-get_example :
    (j : Json) × (check_and_clone (JsValue.number 1) ≡ some j)
    × (get bytes
          (codes "plan" ∷ [])
          (codes "a.b")
          (set bytes (codes "plan" ∷ []) (codes "a.b") (JsValue.number 1) empty).0
        ≡ ok (some j))
set-get_example =
    set-get bytes (codes "plan" ∷ []) (codes "a.b") (JsValue.number 1) empty set_returns

abbrev plan : NormalizedContextPath
plan = record { raw = codes "plan"; normalized = codes "plan"; segments = codes "plan" ∷ [] }

plan_is_resolved : resolve_path [] ContextOperation.set (codes "plan") ≡ ok plan
unfolding resolve_path list_eq all_digits
plan_is_resolved = refl

abbrev deleted : ContextState
deleted = (delete bytes [] (codes "plan.a") with_value).0

plan_is_set : (set bytes [] (codes "plan") (JsValue.number 1) deleted).1 ≡ ok tt
unfolding set delete list_eq all_digits child find is_inherited value_of read
plan_is_set = refl
