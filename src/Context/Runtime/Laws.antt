-- ===== src/Context/Runtime/Laws.antt =====
-- What the facade promises: what was set is read, under the same prefixes.
use open_dynamic_workflow.Base.{
  ℕ, ◌≡◌, refl, ap, ◌∙◌, sym, subst, false, ◌||◌, ◌++◌, Option, none, some, List, [], ◌∷◌, Text,
  Result, ok, err, ◌>>=◌, if◌then◌else◌, if_intro, ltb, ◌==◌, ℕ_eq, List_eq, All, Bool-cases, inl,
  inr,
}
use open_dynamic_workflow.Context.Json.{Json, Fields, JsValue, check_and_clone, embed}
use open_dynamic_workflow.Context.Operations.{
  ContextOperation, ContextError, context_get, context_set,
}
use open_dynamic_workflow.Context.Operations.Safety.{clone-embed, context_set-get}
use open_dynamic_workflow.Context.Path.{NormalizedContextPath, dot, join_dots}
use open_dynamic_workflow.Context.Path.Laws.{
  Follows, if-Follows, HasSegment, parse_context_path-Follows, join_context_path-Follows,
  parse_context_path-HasSegment, join_context_path-HasSegment,
}
use open_dynamic_workflow.Context.Runtime.{
  ContextState, starts_with, resolve_path, is_related, clear_matching_tombstones,
  validate_json_value, attempt, get, set, max_value_bytes,
}

resolve_path-Follows :
    (stack : List Text) (op op' : ContextOperation) (path : Text)
    → Follows (resolve_path stack op path) (resolve_path stack op' path)
unfolding resolve_path
resolve_path-Follows [] op op' path = parse_context_path-Follows op op' path
resolve_path-Follows (root ∷ rest) op op' path =
    if-Follows (path == root || starts_with (root ++ dot ∷ []) path) _ _ _ _
      (parse_context_path-Follows op op' path)
      (join_context_path-Follows op op' (join_dots (root ∷ rest)) path)

resolve_path-HasSegment :
    (stack : List Text) (op : ContextOperation) (path : Text) (p : NormalizedContextPath)
    → resolve_path stack op path ≡ ok p
    → HasSegment p
unfolding resolve_path
resolve_path-HasSegment [] op path p = parse_context_path-HasSegment op path p
resolve_path-HasSegment (root ∷ rest) op path p =
    if_intro (λ (m : Result ContextError NormalizedContextPath). m ≡ ok p → HasSegment p)
      (path == root || starts_with (root ++ dot ∷ []) path)
      (parse_context_path-HasSegment op path p)
      (join_context_path-HasSegment op (join_dots (root ∷ rest)) path p)

-- An attempt that returns has its first step return.
attempt_ok :
    {A B : Type 0} (m : Result ContextError A) (s : ContextState)
    (next : A → ContextState × Result ContextError B) {r : B}
    → (attempt m s next).1 ≡ ok r
    → (x : A) × (m ≡ ok x) × (attempt m s next ≡ next x) × ((next x).1 ≡ ok r)
attempt_ok (ok x) s next h = (x, refl, refl, h)
attempt_ok (err e) s next h = absurd (cc h)

validate_json_value-clone :
    (bytes : Json → ℕ) (op : ContextOperation) (path : Text) (v : JsValue) (j : Json)
    → validate_json_value bytes op path v ≡ ok j
    → check_and_clone v ≡ some j
unfolding validate_json_value
validate_json_value-clone bytes op path v j = through (check_and_clone v) _ _
  where
    through :
        (o : Option Json) (e f : ContextError)
        → ◌≡◌ {A = Result ContextError Json}
            (elim o [
              | none ↦ err e
              | some k ↦ if ltb max_value_bytes (bytes k) then err f else ok k
            ])
            (ok j)
        → o ≡ some j
    through none e f h = cc
    through (some k) e f h =
        if_intro (λ (m : Result ContextError Json). m ≡ ok j → some k ≡ some j)
          (ltb max_value_bytes (bytes k)) (λ h. absurd (cc h)) (λ h. cc h) h

get-set_segments :
    (p : NormalizedContextPath) (j : Json) (s : Fields) (r : Unit {0})
    → HasSegment p
    → (context_set ContextOperation.set p.normalized p.segments (embed j) s).1 ≡ ok r
    → context_get ContextOperation.get p.normalized p.segments
        (context_set ContextOperation.set p.normalized p.segments (embed j) s).0
      ≡ ok (some j)
get-set_segments p j s r (key, rest, h) =
    subst
      (λ (segments : List Text).
        (context_set ContextOperation.set p.normalized segments (embed j) s).1 ≡ ok r
        → context_get ContextOperation.get p.normalized segments
            (context_set ContextOperation.set p.normalized segments (embed j) s).0
          ≡ ok (some j))
      (sym h)
      (λ k.
        context_set-get ContextOperation.set p.normalized key rest ContextOperation.get p.normalized
          (embed j) s k
        ∙ ap (λ m. m >>= λ cloned. ok (some cloned)) (clone-embed j))

module _ (bytes : Json → ℕ) (prefix_stack : List Text) where
  get-resolved :
      (path : Text) (p : NormalizedContextPath) (t : ContextState) (j : Json)
      → resolve_path prefix_stack ContextOperation.get path ≡ ok p
      → context_get ContextOperation.get p.normalized p.segments t.data_ ≡ ok (some j)
      → get bytes prefix_stack path t ≡ ok (some j)
  unfolding get
  get-resolved path p t j h k = rw (get, h) k

  -- Where a set returns, the value is JSON, and a get of the same path under the same prefixes returns its
  -- clone.
  pub set-get :
      (path : Text) (v : JsValue) (s : ContextState)
      → (set bytes prefix_stack path v s).1 ≡ ok tt
      → (j : Json) × (check_and_clone v ≡ some j)
        × (get bytes prefix_stack path (set bytes prefix_stack path v s).0 ≡ ok (some j))
  unfolding set get
  set-get path v s h =
      let (p, resolved, first, k) =
        attempt_ok (resolve_path prefix_stack ContextOperation.set path) s _ h in
      let (j, valid, second, l) =
        attempt_ok (validate_json_value bytes ContextOperation.set p.normalized v) s _ k in
      (
        j,
        validate_json_value-clone bytes ContextOperation.set p.normalized v j valid,
        get-resolved path p (set bytes prefix_stack path v s).0 j
            (resolve_path-Follows prefix_stack ContextOperation.set ContextOperation.get path p
              resolved)
            (ap (λ t. context_get ContextOperation.get p.normalized p.segments t.0.data_)
                (first ∙ second)
              ∙ get-set_segments p j s.data_ tt
                  (resolve_path-HasSegment prefix_stack ContextOperation.set path p resolved) l),
      )

unrelated :
    (path : Text) (tombstones : List Text)
    → All (λ t. is_related path t ≡ false) (clear_matching_tombstones path tombstones)
unfolding clear_matching_tombstones
unrelated path [] = tt
unrelated path (t ∷ ts) = elim (Bool-cases (is_related path t)) [
  | inl related ↦ rw related (unrelated path ts)
  | inr other ↦ rw other (other, unrelated path ts)
]

module _ (bytes : Json → ℕ) (prefix_stack : List Text) where
  -- Where a set returns, no tombstone is left of its path, of a path above it or of one below it.
  pub set-tombstones :
      (path : Text) (v : JsValue) (s : ContextState) (p : NormalizedContextPath)
      → resolve_path prefix_stack ContextOperation.set path ≡ ok p
      → (set bytes prefix_stack path v s).1 ≡ ok tt
      → All (λ t. is_related p.normalized t ≡ false) (set bytes prefix_stack path v s).0.tombstones
  unfolding set
  set-tombstones path v s p e h =
      let (q, resolved, first, k) =
        attempt_ok (resolve_path prefix_stack ContextOperation.set path) s _ h in
      let (j, valid, second, l) =
        attempt_ok (validate_json_value bytes ContextOperation.set q.normalized v) s _ k in
      subst
        (λ (r : ContextState × Result ContextError (Unit {0})).
          All (λ t. is_related p.normalized t ≡ false) r.0.tombstones)
        (sym (first ∙ second))
        (subst
          (λ (x : NormalizedContextPath).
            All (λ t. is_related x.normalized t ≡ false)
              (clear_matching_tombstones q.normalized s.tombstones))
          (ap (λ m. elim m [ ok x ↦ x | err _ ↦ p ]) (sym resolved ∙ e))
          (unrelated q.normalized s.tombstones))
