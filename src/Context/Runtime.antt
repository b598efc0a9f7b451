-- ===== src/Context/Runtime.antt =====
-- context/runtime.ts, the facade over the store: prefixes, tombstones and the limit of a value's size. The
-- prefixes that are active, which the storage of the asynchronous call keeps, are an argument; so is the
-- number of bytes of a value's JSON text, which the platform computes. Events are left out.
pub mod Laws
mod Examples
use open_dynamic_workflow.Base.{
  ℕ, ◌*◌, ℕ_eq, List_eq, ◌==◌, Bool, true, false, not, ◌||◌, Option, none, some, List, [], ◌∷◌,
  ◌++◌, Text, Result, ok, err, ◌>>=◌, if◌then◌else◌, ltb,
}
use open_dynamic_workflow.Context.Json.{Json, Fields, JsValue, check_and_clone, embed}
use open_dynamic_workflow.Context.Operations.{
  ContextOperation, ContextError, context_invalid_value, context_size_limit_exceeded, context_get,
  context_has, context_set, context_delete, context_merge, context_append,
}
use open_dynamic_workflow.Context.Path.{
  NormalizedContextPath, dot, join_dots, parse_context_path, join_context_path, is_ancestor_path,
}

pub record ContextState : Type 0 where
  pub data_ : Fields
  pub tombstones : List Text

-- `startsWith`
unfoldable pub starts_with : Text → Text → Bool
starts_with [] path = true
starts_with (c ∷ rest) [] = false
starts_with (c ∷ rest) (d ∷ path) = if c == d then starts_with rest path else false

unfoldable pub resolve_path :
    List Text → ContextOperation → Text → Result ContextError NormalizedContextPath
unfolding parse_context_path join_context_path join_dots starts_with
resolve_path [] op path = parse_context_path op path
resolve_path (root ∷ rest) op path =
    if path == root || starts_with (root ++ dot ∷ []) path
    then parse_context_path op path
    else join_context_path op (join_dots (root ∷ rest)) path

abbrev pub is_related : Text → Text → Bool
is_related path tombstone =
    tombstone == path || is_ancestor_path tombstone path || is_ancestor_path path tombstone

unfoldable pub clear_matching_tombstones : Text → List Text → List Text
unfolding is_ancestor_path
clear_matching_tombstones path [] = []
clear_matching_tombstones path (t ∷ ts) =
    let rest = clear_matching_tombstones path ts in if is_related path t then rest else t ∷ rest

-- `Set.add`
unfoldable pub add_tombstone : Text → List Text → List Text
add_tombstone path [] = path ∷ []
add_tombstone path (t ∷ ts) =
    let rest = add_tombstone path ts in if t == path then t ∷ ts else t ∷ rest

abbrev pub max_value_bytes : ℕ
max_value_bytes = 256 * 1024

-- `validateJsonValue`, with the bytes of the clone.
unfoldable pub validate_json_value :
    (Json → ℕ) → ContextOperation → Text → JsValue → Result ContextError Json
unfolding check_and_clone
validate_json_value bytes op path v = elim (check_and_clone v) [
  | none ↦ err record { code = context_invalid_value; operation = op; path = path }
  | some j ↦
      if ltb max_value_bytes (bytes j)
      then err record { code = context_size_limit_exceeded; operation = op; path = path }
      else ok j
]

-- What a method does first, which may throw, and what follows.
abbrev pub attempt {ℓ} :
    {A : Type ℓ} {B : Type 0}
    → Result ContextError A
    → ContextState
    → (A → ContextState × Result ContextError B)
    → ContextState × Result ContextError B
attempt (err e) s next = (s, err e)
attempt (ok x) s next = next x

-- The state with the store as an operation leaves it.
abbrev pub stored {ℓ} :
    {A : Type ℓ} → List Text → Fields × Result ContextError A → ContextState × Result ContextError A
stored tombstones (fields, r) = (record { data_ = fields; tombstones = tombstones }, r)

module _ (bytes : Json → ℕ) (prefix_stack : List Text) where
  unfoldable pub get : Text → ContextState → Result ContextError (Option Json)
  unfolding resolve_path context_get
  get path s = resolve_path prefix_stack ContextOperation.get path >>= λ p.
      context_get ContextOperation.get p.normalized p.segments s.data_

  unfoldable pub has : Text → ContextState → Result ContextError Bool
  unfolding resolve_path context_has
  has path s = resolve_path prefix_stack ContextOperation.has path >>= λ p.
      context_has ContextOperation.has p.normalized p.segments s.data_

  -- `set`, `merge` and `append`, by the operation on the store.
  abbrev pub write :
      ContextOperation
      → (ContextOperation
          → Text
          → List Text
          → JsValue
          → Fields
          → Fields × Result ContextError (Unit {0}))
      → Text
      → JsValue
      → ContextState
      → ContextState × Result ContextError (Unit {0})
  write op act path v s = attempt (resolve_path prefix_stack op path) s λ p.
      attempt (validate_json_value bytes op p.normalized v) s λ j.
        stored (clear_matching_tombstones p.normalized s.tombstones)
          (act op p.normalized p.segments (embed j) s.data_)

  unfoldable pub set : Text → JsValue → ContextState → ContextState × Result ContextError (Unit {0})
  unfolding resolve_path validate_json_value clear_matching_tombstones context_set embed
  set path v s = write ContextOperation.set context_set path v s

  unfoldable pub merge :
      Text → JsValue → ContextState → ContextState × Result ContextError (Unit {0})
  unfolding resolve_path validate_json_value clear_matching_tombstones context_merge embed
  merge path v s = write ContextOperation.merge context_merge path v s

  unfoldable pub append :
      Text → JsValue → ContextState → ContextState × Result ContextError (Unit {0})
  unfolding resolve_path validate_json_value clear_matching_tombstones context_append embed
  append path v s = write ContextOperation.append context_append path v s

  abbrev pub bury :
      Text → ContextState × Result ContextError Bool → ContextState × Result ContextError Bool
  bury path (s, ok true) =
      (record { data_ = s.data_; tombstones = add_tombstone path s.tombstones }, ok true)
  bury path (s, ok false) = (s, ok false)
  bury path (s, err e) = (s, err e)

  unfoldable pub delete : Text → ContextState → ContextState × Result ContextError Bool
  unfolding resolve_path context_delete add_tombstone
  delete path s = attempt (resolve_path prefix_stack ContextOperation.delete path) s λ p.
      bury p.normalized (
        stored s.tombstones
          (context_delete ContextOperation.delete p.normalized p.segments s.data_))

  -- `scope`: the prefixes that its function runs with.
  unfoldable pub scope : Text → Result ContextError (List Text)
  unfolding parse_context_path
  scope path_prefix = parse_context_path ContextOperation.scope path_prefix >>= λ p.
      ok (prefix_stack ++ p.normalized ∷ [])
