-- ===== src/Config/Aliases.antt =====
-- config/provider-aliases.ts, `resolveProviderAliases` after the validation of the raw definitions:
-- the collisions of names and the depth first resolution of the inheritance.
use open_dynamic_workflow.Base.{
  ℕ, zero, suc, ◌+◌, Bool, true, false, Option, none, some, List, [], ◌∷◌, ◌++◌, if◌then◌else◌, ltb,
  nat_eq, ◌==◌, Text, lookup, insert, length, Result, ok, err, ◌>>=◌, ℕ_eq, List_eq,
}
use open_dynamic_workflow.Config.Aliases.Data.{
  AliasConfig, ResolvedAlias, AliasesInput, Mark, unvisited, visiting, resolved, AliasError, Stop,
  out_of_fuel, threw, invalid_definition, namespace_conflict, cycle_detected, max_depth_exceeded,
  parent_not_found, built_in, configured_provider,
}
use open_dynamic_workflow.Config.Aliases.Merge.{merge_alias}
pub mod Data
pub mod Sorting
pub mod Merge
mod Reference
mod Termination
mod Provenance
mod RetrySources
mod RetryFields
mod Sound
mod Complete
mod Registry
mod Explained
mod Examples
use open_dynamic_workflow.Config.Aliases.Sorting.{sort, keys}

abbrev pub Marks : Type 0
Marks = List (Text × Mark)

-- A call of `resolveAlias`: the alias, and what `state` and `resolved` hold then.
abbrev pub Resolution : Type 0
Resolution = Result Stop (ResolvedAlias × Marks)

-- `stack.slice(stack.indexOf(name))`
unfoldable pub from_index : Text → List Text → List Text
from_index name [] = []
from_index name (x ∷ xs) = if x == name then x ∷ xs else from_index name xs

-- A result of code that calls nothing recursively.
abbrev pub lift {ℓ} : {A : Type ℓ} → Result AliasError A → Result Stop A
lift (ok x) = ok x
lift (err e) = err (threw e)

-- Object keys in their order, for those that `sort` puts in that of the code units.
module _ (c : AliasesInput) where
  unfoldable pub check_collisions : List Text → Result AliasError (Unit {0})
  check_collisions [] = ok _
  check_collisions (name ∷ names) =
      let rest = check_collisions names in
      if c.is_built_in name
      then err (namespace_conflict name built_in)
      else if c.in_providers name
      then err (namespace_conflict name configured_provider)
      else rest

  -- The chain of the parent with the alias added to it.
  abbrev pub check_chain : Text → ResolvedAlias × Marks → Result Stop (Option ResolvedAlias × Marks)
  check_chain name (r, marks) =
      if ltb c.max_depth (length r.inheritance_chain + 1)
      then err (threw (max_depth_exceeded name))
      else ok (some r, marks)

  -- The parent of an alias, `recurse` being the call of `resolveAlias` on it.
  abbrev pub call_parent :
      (Text → List Text → Marks → Resolution)
      → Text
      → List Text
      → Text
      → Marks
      → Option AliasConfig
      → Result Stop (Option ResolvedAlias × Marks)
  call_parent recurse name stack parent marks none = err (threw (parent_not_found name parent))
  call_parent recurse name stack parent marks (some def) =
      recurse parent (stack ++ name ∷ []) marks >>= check_chain name

  abbrev pub resolve_parent :
      (Text → List Text → Marks → Resolution)
      → Text
      → List Text
      → Option Text
      → Marks
      → Result Stop (Option ResolvedAlias × Marks)
  resolve_parent recurse name stack none marks = ok (none, marks)
  resolve_parent recurse name stack (some parent) marks =
      call_parent recurse name stack parent marks (lookup parent c.raw_aliases)

  abbrev pub finish : Text → AliasConfig → Option ResolvedAlias × Marks → Resolution
  finish name def (parent, marks) =
      lift (merge_alias c name def parent) >>= λ r. ok (r, insert name (resolved r) marks)

  abbrev pub visit_definition :
      (Text → List Text → Marks → Resolution)
      → Text
      → List Text
      → Marks
      → Option AliasConfig
      → Resolution
  visit_definition recurse name stack marks none = err (threw (invalid_definition name))
  visit_definition recurse name stack marks (some def) =
      resolve_parent recurse name stack def.extends marks >>= finish name def

  abbrev pub visit : (Text → List Text → Marks → Resolution) → Text → List Text → Marks → Resolution
  visit recurse name stack marks =
      if ltb c.max_depth (length stack + 1)
      then err (threw (max_depth_exceeded name))
      else visit_definition recurse name stack (insert name visiting marks)
          (lookup name c.raw_aliases)

  abbrev pub at_mark :
      (Text → List Text → Marks → Resolution) → Text → List Text → Marks → Option Mark → Resolution
  at_mark recurse name stack marks (some (resolved r)) = ok (r, marks)
  at_mark recurse name stack marks (some visiting) =
      err (threw (cycle_detected (from_index name stack ++ name ∷ [])))
  at_mark recurse name stack marks _ = visit recurse name stack marks

  -- `resolveAlias`, the depth of the recursion bounded by a fuel.
  unfoldable pub resolve_alias : ℕ → Text → List Text → Marks → Resolution
  resolve_alias zero name stack marks = err out_of_fuel
  resolve_alias (suc fuel) name stack marks =
      at_mark (resolve_alias fuel) name stack marks (lookup name marks)

  unfoldable pub resolve_names : ℕ → List Text → Marks → Result Stop Marks
  resolve_names fuel [] marks = ok marks
  resolve_names fuel (name ∷ names) marks =
      resolve_alias fuel name [] marks >>= λ (r : ResolvedAlias × Marks).
      resolve_names fuel names (r.1)

unfoldable pub unvisited_marks : List Text → Marks
unvisited_marks [] = []
unvisited_marks (name ∷ names) = insert name unvisited (unvisited_marks names)

abbrev pub resolved_of : Option Mark → Option ResolvedAlias
resolved_of (some (resolved r)) = some r
resolved_of _ = none

abbrev pub with_entry :
    Text → Option ResolvedAlias → List (Text × ResolvedAlias) → List (Text × ResolvedAlias)
with_entry name none registry = registry
with_entry name (some r) registry = insert name r registry

-- `registry[name] = resolved[name]` for each name; an entry that is undefined reads as none.
unfoldable pub registry_of : List Text → Marks → List (Text × ResolvedAlias)
registry_of [] marks = []
registry_of (name ∷ names) marks =
    with_entry name (resolved_of (lookup name marks)) (registry_of names marks)

-- A call for each depth from none to the greatest, and one for the alias that is too deep.
abbrev pub enough_fuel : AliasesInput → ℕ
enough_fuel c = suc c.max_depth

unfoldable pub resolve_provider_aliases : AliasesInput → Result Stop (List (Text × ResolvedAlias))
resolve_provider_aliases c =
    if nat_eq c.max_depth 0
    then err (threw (invalid_definition []))
    else let names = sort (keys c.raw_aliases) in
      lift (check_collisions c names) >>= λ _.
      resolve_names c (enough_fuel c) names (unvisited_marks names) >>= λ marks.
      ok (registry_of names marks)
