-- ===== src/Context/Operations.antt =====
-- context/operations.ts, and the errors of context/errors.ts and limits.ts that the context throws.
-- A store is a tree of objects, changed in place: an operation returns the store as it leaves it, also
-- where it throws. The text of an error's reason is left out.
pub mod Objects
pub mod Laws
pub mod Frame
pub mod Updates
pub mod Safety
mod Examples
use open_dynamic_workflow.Base.{
  ℕ, ℕ_eq, List_eq, ◌==◌, Bool, true, false, not, if◌then◌else◌, Option, none, some, List, [], ◌∷◌,
  Text, Result, ok, err, ◌>>=◌, codes,
}
use open_dynamic_workflow.Context.Json.{
  Json, Items, Fields, JsValue, JsFields, check_and_clone, clone_fields, embed,
}
use Objects.{
  find, put, drop, Read, absent, inherited, own, read, Child, missing, listed, scalar, inside,
  child, put_all, push,
}

-- `ContextOperationName`
pub data ContextOperation : Type 0 where
  get has set delete merge append snapshot scope : ContextOperation

pub data ContextErrorCode : Type 0 where
  context_invalid_path context_invalid_value context_size_limit_exceeded context_type_mismatch :
      ContextErrorCode

pub record ContextError : Type 0 where
  pub code : ContextErrorCode
  pub operation : ContextOperation
  pub path : Text

-- A step that may throw before the store is changed, and what follows it.
abbrev pub after {ℓ} :
    {A : Type ℓ} {B : Type 0}
    → Result ContextError A
    → Fields
    → (A → Fields × Result ContextError B)
    → Fields × Result ContextError B
after (err e) store next = (store, err e)
after (ok x) store next = next x

abbrev pub mismatch : ContextOperation → Text → ContextError
mismatch op path = record { code = context_type_mismatch; operation = op; path = path }

-- `cloneJsonValue`, with its own operation; its path is the text "root".
unfoldable pub clone_json_value : JsValue → Result ContextError Json
clone_json_value v = elim (check_and_clone v) [
  | none ↦ err record { code = context_invalid_value; operation = set; path = codes "root" }
  | some j ↦ ok j
]

module _ (op : ContextOperation) (full_path : Text) where
  -- One round of the loop of `traverse` with `isWrite` false; `go` is what follows it.
  abbrev pub read_child :
      (Fields → Result ContextError (Option Fields)) → Child → Result ContextError (Option Fields)
  read_child go missing = ok none
  read_child go scalar = ok none
  read_child go listed = err (mismatch op full_path)
  read_child go (inside fields) = go fields

  -- The object that has the last segment, if there is one.
  unfoldable pub traverse : List Text → Fields → Result ContextError (Option Fields)
  traverse [] store = ok (some store)
  traverse (key ∷ []) store = ok (some store)
  traverse (key ∷ next ∷ rest) store = read_child (traverse (next ∷ rest)) (child (read key store))

  module _ {A : Type 0} where
    -- One round with `isWrite` true.
    abbrev pub write_child :
        Text
        → Fields
        → (Fields → Fields × Result ContextError A)
        → Child
        → Fields × Result ContextError A
    write_child key store go missing =
        (put key (Json.object (go Fields.end).0) store, (go Fields.end).1)
    write_child key store go scalar = (store, err (mismatch op full_path))
    write_child key store go listed = (store, err (mismatch op full_path))
    write_child key store go (inside fields) =
        (put key (Json.object (go fields).0) store, (go fields).1)

    -- `traverse` with `isWrite` true, and what is done with the object that it finds.
    unfoldable pub write_at :
        (Text → Fields → Fields × Result ContextError A)
        → List Text
        → Fields
        → Fields × Result ContextError A
    write_at act [] store = act [] store
    write_at act (key ∷ []) store = act key store
    write_at act (key ∷ next ∷ rest) store =
        write_child key store (write_at act (next ∷ rest)) (child (read key store))

unfoldable pub last : List Text → Text
last [] = []
last (key ∷ []) = key
last (key ∷ next ∷ rest) = last (next ∷ rest)

-- A property as a value of the language: undefined, a function, or JSON.
unfoldable pub value_of : Read → JsValue
unfolding embed
value_of absent = JsValue.undefined
value_of inherited = JsValue.opaque
value_of (own j) = embed j

abbrev pub is_absent : Read → Bool
is_absent absent = true
is_absent _ = false

-- A copy of what is read, unless it is undefined.
abbrev pub got : Read → Result ContextError (Option Json)
got val =
    if is_absent val
    then ok none
    else (clone_json_value (value_of val) >>= λ cloned. ok (some cloned))

-- `parent[key]`, where `traverse` found the parent.
abbrev pub read_last : List Text → Option Fields → Read
read_last segments none = absent
read_last segments (some parent) = read (last segments) parent

abbrev pub takes_entries : Read → Bool
takes_entries absent = true
takes_entries inherited = false
takes_entries (own Json.null) = true
takes_entries (own (Json.object fs)) = true
takes_entries (own _) = false

abbrev pub takes_items : Read → Bool
takes_items absent = true
takes_items inherited = false
takes_items (own Json.null) = true
takes_items (own (Json.array xs)) = true
takes_items (own _) = false

module _ (op : ContextOperation) (full_path : Text) where
  -- The target of a merge, with the entries.
  abbrev pub merge_read : Fields → Text → Fields → Read → Fields × Result ContextError (Unit {0})
  merge_read entries key parent absent =
      (put key (Json.object (put_all entries Fields.end)) parent, ok tt)
  merge_read entries key parent (own Json.null) =
      (put key (Json.object (put_all entries Fields.end)) parent, ok tt)
  merge_read entries key parent (own (Json.object target)) =
      (put key (Json.object (put_all entries target)) parent, ok tt)
  merge_read entries key parent _ = (parent, err (mismatch op full_path))

  unfoldable pub merge_into : Fields → Text → Fields → Fields × Result ContextError (Unit {0})
  unfolding read put put_all
  merge_into entries key parent = merge_read entries key parent (read key parent)

  -- The entries that the keys of a plain object give, cloned.
  abbrev pub merge_entries : JsValue → Result ContextError Fields
  merge_entries (JsValue.object true fs) = elim (clone_fields fs) [
    | none ↦ err record { code = context_invalid_value; operation = set; path = codes "root" }
    | some entries ↦ ok entries
  ]
  merge_entries _ = err (mismatch op full_path)

  abbrev pub append_read : Json → Text → Fields → Read → Fields × Result ContextError (Unit {0})
  append_read v key parent absent = (put key (Json.array (push Items.nil v)) parent, ok tt)
  append_read v key parent (own Json.null) = (put key (Json.array (push Items.nil v)) parent, ok tt)
  append_read v key parent (own (Json.array target)) =
      (put key (Json.array (push target v)) parent, ok tt)
  append_read v key parent _ = (parent, err (mismatch op full_path))

  unfoldable pub append_to : Json → Text → Fields → Fields × Result ContextError (Unit {0})
  unfolding read put push
  append_to v key parent = append_read v key parent (read key parent)

module _ (op : ContextOperation) (full_path : Text) (segments : List Text) where
  -- `contextGet`: none is undefined.
  unfoldable pub context_get : Fields → Result ContextError (Option Json)
  unfolding traverse last read
  context_get store =
      traverse op full_path segments store >>= λ parent. got (read_last segments parent)

  unfoldable pub context_has : Fields → Result ContextError Bool
  unfolding traverse last read
  context_has store = traverse op full_path segments store >>= λ parent.
      ok (not (is_absent (read_last segments parent)))

  -- `contextSet`: the store that it leaves, and whether it throws.
  unfoldable pub context_set : JsValue → Fields → Fields × Result ContextError (Unit {0})
  unfolding clone_json_value write_at put
  context_set value store =
      after (clone_json_value value) store λ cloned.
        write_at op full_path (λ key parent. (put key cloned parent, ok tt)) segments store

  unfoldable pub context_delete : Fields → Fields × Result ContextError Bool
  unfolding traverse last read write_at drop
  context_delete store = after (traverse op full_path segments store) store λ parent.
      if is_absent (read_last segments parent)
      then (store, ok false)
      else write_at op full_path (λ key found. (drop key found, ok true)) segments store

  -- The check of the target before anything is changed, of `contextMerge` and `contextAppend`.
  abbrev pub check_target : (Read → Bool) → Fields → Result ContextError (Unit {0})
  check_target fits store = traverse op full_path segments store >>= λ parent.
      if fits (read_last segments parent) then ok tt else err (mismatch op full_path)

  unfoldable pub context_merge : JsValue → Fields → Fields × Result ContextError (Unit {0})
  unfolding clone_fields traverse last read write_at merge_into
  context_merge value store = after (merge_entries op full_path value) store λ entries.
      after (check_target takes_entries store) store
        λ fits. write_at op full_path (merge_into op full_path entries) segments store

  unfoldable pub context_append : JsValue → Fields → Fields × Result ContextError (Unit {0})
  unfolding clone_json_value traverse last read write_at append_to
  context_append value store = after (clone_json_value value) store λ cloned.
      after (check_target takes_items store) store
        λ fits. write_at op full_path (append_to op full_path cloned) segments store
