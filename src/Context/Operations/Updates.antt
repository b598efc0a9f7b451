-- ===== src/Context/Operations/Updates.antt =====
-- The operations that change the store, as one kind of update.
use open_dynamic_workflow.Base.{
  ℕ_eq, List_eq, ◌==◌, ◌≡◌, refl, false, List, Text, Result, ok, err, arith,
}
use open_dynamic_workflow.Context.Json.{Json, Fields, JsValue}
use open_dynamic_workflow.Context.Operations.Objects.{
  find, drop, Read, absent, inherited, own, read, is_inherited, find-drop,
}
use open_dynamic_workflow.Context.Operations.{
  ContextOperation, ContextError, context_set, context_delete, context_merge, context_append,
  merge_read, merge_into, append_read, append_to,
}
use open_dynamic_workflow.Context.Operations.Laws.{read-put_other}

pub data Update : Type 0 where
  sets merges appends : JsValue → Update
  deletes : Update

-- What an operation returns is of no interest here but for its error.
abbrev pub done {ℓ} :
    {A : Type ℓ} → Fields × Result ContextError A → Fields × Result ContextError (Unit {0})
done (store, ok x) = (store, ok tt)
done (store, err e) = (store, err e)

unfoldable pub update :
    Update → ContextOperation → Text → List Text → Fields → Fields × Result ContextError (Unit {0})
unfolding context_set context_merge context_append context_delete
update (sets v) op path segments store = context_set op path segments v store
update (merges v) op path segments store = context_merge op path segments v store
update (appends v) op path segments store = context_append op path segments v store
update deletes op path segments store = done (context_delete op path segments store)

pub read-drop_other :
    (key other : Text) (fs : Fields)
    → (key == other) ≡ false
    → read other (drop key fs) ≡ read other fs
unfolding read
read-drop_other key other fs h = ground (arith, find-drop key other fs, h)

module _ (op : ContextOperation) (path : Text) where
  pub merge_into-local :
      (entries : Fields) (key other : Text) (p : Fields)
      → (key == other) ≡ false
      → read other (merge_into op path entries key p).0 ≡ read other p
  unfolding merge_into
  merge_into-local entries key other p h = through (read key p)
    where
      through : (r : Read) → read other (merge_read op path entries key p r).0 ≡ read other p
      through absent = read-put_other key other _ p h
      through inherited = refl
      through (own Json.null) = read-put_other key other _ p h
      through (own (Json.object fs)) = read-put_other key other _ p h
      through (own (Json.boolean b)) = refl
      through (own (Json.number n)) = refl
      through (own (Json.text t)) = refl
      through (own (Json.array xs)) = refl

  pub append_to-local :
      (v : Json) (key other : Text) (p : Fields)
      → (key == other) ≡ false
      → read other (append_to op path v key p).0 ≡ read other p
  unfolding append_to
  append_to-local v key other p h = through (read key p)
    where
      through : (r : Read) → read other (append_read op path v key p r).0 ≡ read other p
      through absent = read-put_other key other _ p h
      through inherited = refl
      through (own Json.null) = read-put_other key other _ p h
      through (own (Json.object fs)) = refl
      through (own (Json.boolean b)) = refl
      through (own (Json.number n)) = refl
      through (own (Json.text t)) = refl
      through (own (Json.array xs)) = read-put_other key other _ p h

  pub merge_into-err :
      (entries : Fields) (key : Text) (p : Fields) (e : ContextError)
      → (merge_into op path entries key p).1 ≡ err e
      → (merge_into op path entries key p).0 ≡ p
  unfolding merge_into
  merge_into-err entries key p e = through (read key p)
    where
      through :
          (r : Read)
          → (merge_read op path entries key p r).1 ≡ err e
          → (merge_read op path entries key p r).0 ≡ p
      through r h = ground (arith, h)

  pub append_to-err :
      (v : Json) (key : Text) (p : Fields) (e : ContextError)
      → (append_to op path v key p).1 ≡ err e
      → (append_to op path v key p).0 ≡ p
  unfolding append_to
  append_to-err v key p e = through (read key p)
    where
      through :
          (r : Read)
          → (append_read op path v key p r).1 ≡ err e
          → (append_read op path v key p r).0 ≡ p
      through r h = ground (arith, h)

  pub read-end : (key : Text) → is_inherited key ≡ false → read key Fields.end ≡ absent
  unfolding read find
  read-end key h = rw h
