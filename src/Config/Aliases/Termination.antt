-- ===== src/Config/Aliases/Termination.antt =====
-- `resolveAlias` ends: the stack grows by one with each call, and is never deeper than the bound.
use open_dynamic_workflow.Base.{
  ℕ, zero, suc, ◌+◌, ◌≤◌, ◌<◌, if_then, if_else, false, ◌≡◌, ◌≢◌, Option, none, some, List, [], ◌∷◌,
  ◌++◌, length, length-append, Text, lookup, insert, Result, ok, err, ◌>>=◌, arith, ltb, Bool-cases,
  inl, inr, if_intro, ℕ_eq, List_eq, nat_eq,
}
use open_dynamic_workflow.Config.Aliases.Data.{
  AliasConfig, ResolvedAlias, AliasesInput, Mark, unvisited, visiting, resolved, AliasError, Stop,
  out_of_fuel, threw,
}
use open_dynamic_workflow.Config.Aliases.Merge.{merge_alias}
use open_dynamic_workflow.Config.Aliases.Sorting.{sort, keys}
use open_dynamic_workflow.Config.Aliases.{
  Marks, Resolution, lift, check_collisions, check_chain, call_parent, resolve_parent,
  visit_definition, visit, at_mark, resolve_alias, resolve_names, unvisited_marks, enough_fuel,
  resolve_provider_aliases,
}

-- A result that is no lack of fuel.
abbrev Ends {ℓ} : {A : Type ℓ} → Result Stop A → Type 0
Ends (err out_of_fuel) = ⊥
Ends _ = Unit

bind-Ends {ℓ κ} :
    {A : Type ℓ} {B : Type κ} (m : Result Stop A) (next : A → Result Stop B)
    → Ends m
    → ((a : A) → Ends (next a))
    → Ends (m >>= next)
bind-Ends (ok a) next h k = k a
bind-Ends (err out_of_fuel) next h k = h
bind-Ends (err (threw e)) next h k = _

lift-Ends {ℓ} : {A : Type ℓ} (m : Result AliasError A) → Ends (lift m)
lift-Ends (ok a) = _
lift-Ends (err e) = _

Ends-lem {ℓ} : {A : Type ℓ} (m : Result Stop A) → Ends m → m ≢ err out_of_fuel
Ends-lem (ok a) h e = cc
Ends-lem (err out_of_fuel) h e = h
Ends-lem (err (threw x)) h e = cc

module _ (c : AliasesInput) where
  abbrev Recursion : Type 0
  Recursion = Text → List Text → Marks → Resolution

  check_chain-Ends : (name : Text) (p : ResolvedAlias × Marks) → Ends (check_chain c name p)
  check_chain-Ends name (r, marks) =
      if_intro Ends (ltb c.max_depth (length r.inheritance_chain + 1)) _ _

  call_parent-Ends :
      (recurse : Recursion) (name : Text) (stack : List Text) (p : Text) (marks : Marks)
      (o : Option AliasConfig)
      → Ends (recurse p (stack ++ name ∷ []) marks)
      → Ends (call_parent c recurse name stack p marks o)
  call_parent-Ends recurse name stack p marks none h = _
  call_parent-Ends recurse name stack p marks (some d) h =
      bind-Ends (recurse p (stack ++ name ∷ []) marks) _ h (check_chain-Ends name)

  resolve_parent-Ends :
      (recurse : Recursion) (name : Text) (stack : List Text) (o : Option Text) (marks : Marks)
      → ((parent : Text) → Ends (recurse parent (stack ++ name ∷ []) marks))
      → Ends (resolve_parent c recurse name stack o marks)
  resolve_parent-Ends recurse name stack none marks h = _
  resolve_parent-Ends recurse name stack (some p) marks h =
      call_parent-Ends recurse name stack p marks (lookup p c.raw_aliases) (h p)

  visit_definition-Ends :
      (recurse : Recursion) (name : Text) (stack : List Text) (marks : Marks)
      (o : Option AliasConfig)
      → ((parent : Text) → Ends (recurse parent (stack ++ name ∷ []) marks))
      → Ends (visit_definition c recurse name stack marks o)
  visit_definition-Ends recurse name stack marks none h = _
  visit_definition-Ends recurse name stack marks (some def) h =
      bind-Ends (resolve_parent c recurse name stack def.extends marks) _
        (resolve_parent-Ends recurse name stack def.extends marks h)
        (λ (p, m).
          bind-Ends (lift (merge_alias c name def p)) _ (lift-Ends (merge_alias c name def p))
            (λ r. _))

  visit-Ends :
      (recurse : Recursion) (name : Text) (stack : List Text) (marks : Marks)
      → (ltb c.max_depth (length stack + 1) ≡ false
          → (parent : Text) (m : Marks) → Ends (recurse parent (stack ++ name ∷ []) m))
      → Ends (visit c recurse name stack marks)
  visit-Ends recurse name stack marks h = elim (Bool-cases (ltb c.max_depth (length stack + 1))) [
    | inl deep ↦ if_then Ends _ _ _ deep _
    | inr e ↦ if_else Ends _ _ _ e (
        visit_definition-Ends recurse name stack (insert name visiting marks)
          (lookup name c.raw_aliases) (λ p. h e p (insert name visiting marks)))
  ]

  at_mark-Ends :
      (recurse : Recursion) (name : Text) (stack : List Text) (marks : Marks) (o : Option Mark)
      → Ends (visit c recurse name stack marks)
      → Ends (at_mark c recurse name stack marks o)
  at_mark-Ends recurse name stack marks none h = h
  at_mark-Ends recurse name stack marks (some unvisited) h = h
  at_mark-Ends recurse name stack marks (some visiting) h = _
  at_mark-Ends recurse name stack marks (some (resolved r)) h = _

  resolve_alias-Ends :
      (fuel : ℕ) (name : Text) (stack : List Text) (marks : Marks)
      → length stack ≤ c.max_depth
      → c.max_depth < length stack + fuel
      → Ends (resolve_alias c fuel name stack marks)
  unfolding resolve_alias
  resolve_alias-Ends zero name stack marks bound enough = absurd (omega (arith, bound, enough))
  resolve_alias-Ends (suc fuel) name stack marks bound enough =
      at_mark-Ends (resolve_alias c fuel) name stack marks (lookup name marks) (
        visit-Ends (resolve_alias c fuel) name stack marks (λ e p m.
          resolve_alias-Ends fuel p (stack ++ name ∷ []) m
            (ground (arith, e, length-append stack (name ∷ [])))
            (omega (arith, enough, length-append stack (name ∷ [])))))

  resolve_names-Ends :
      (names : List Text) (marks : Marks) → Ends (resolve_names c (enough_fuel c) names marks)
  unfolding resolve_names
  resolve_names-Ends [] marks = _
  resolve_names-Ends (name ∷ names) marks =
      bind-Ends (resolve_alias c (enough_fuel c) name [] marks) _
        (resolve_alias-Ends (enough_fuel c) name [] marks (omega arith) (omega arith))
        (λ (r : ResolvedAlias × Marks). resolve_names-Ends names (r.1))

-- The resolution of the aliases always ends: one call for each depth and one for an alias too deep are
-- enough, also where the aliases extend one another in a cycle.
pub resolve_provider_aliases-terminates :
    (c : AliasesInput) → resolve_provider_aliases c ≢ err out_of_fuel
unfolding resolve_provider_aliases
resolve_provider_aliases-terminates c =
    let names = sort (keys c.raw_aliases) in
    Ends-lem (resolve_provider_aliases c) (
      if_intro Ends (nat_eq c.max_depth 0) _ (
        bind-Ends (lift (check_collisions c names)) _ (lift-Ends (check_collisions c names)) (λ u.
          bind-Ends (resolve_names c (enough_fuel c) names (unvisited_marks names)) _
            (resolve_names-Ends c names (unvisited_marks names)) (λ m. _))))
