-- ===== src/Config/Aliases/Examples.antt =====
-- Runs of the resolution of aliases in config/provider-aliases.ts, and concrete inputs of its theorems.
use open_dynamic_workflow.Base.{
  ℕ, false, none, some, List, [], ◌∷◌, ◌≡◌, ◌≢◌, refl, ok, err, Text, codes, ◌==◌, lookup, insert,
  ℕ_eq, List_eq, list_eq, ◌≤◌, length, arith, Bool-cases, inl, inr, subst, list_eq_iff, sym, ◌∙◌,
  if_false,
}
use open_dynamic_workflow.Config.Policies.{PolicyInput}
use open_dynamic_workflow.Config.Aliases.Data.{
  AliasConfig, ResolvedAlias, AliasesInput, out_of_fuel, threw, cycle_detected, max_depth_exceeded,
}
use open_dynamic_workflow.Config.Aliases.Sorting.{sort, insert_sorted, text_leb, keys}
use open_dynamic_workflow.Config.Aliases.Merge.{merge_alias, no_sources}
use open_dynamic_workflow.Config.Aliases.{
  from_index, check_collisions, resolve_alias, resolve_names, unvisited_marks, registry_of,
  resolve_provider_aliases,
}
use open_dynamic_workflow.Config.Aliases.Reference.{derive}
use open_dynamic_workflow.Config.Aliases.RetryFields.{HasRetry}
use open_dynamic_workflow.Config.Aliases.Provenance.{IsExplained}
use open_dynamic_workflow.Config.Aliases.Termination.{resolve_provider_aliases-terminates}
use open_dynamic_workflow.Config.Aliases.Registry.{
  resolve_provider_aliases-derive, resolve_provider_aliases-returns,
}
use open_dynamic_workflow.Config.Aliases.Explained.{resolve_provider_aliases-IsExplained}

abbrev root_config : AliasConfig
root_config = record {
  provider = some (codes "mock");
  extends = none;
  model = some (some (codes "m"));
  thinking_effort = none;
  timeout_ms = some 5;
  retry = PolicyInput.off;
}

abbrev child_config : AliasConfig
child_config = record {
  provider = none;
  extends = some (codes "z");
  model = some none;
  thinking_effort = none;
  timeout_ms = none;
  retry = PolicyInput.absent;
}

abbrev input_of : List (Text × AliasConfig) → ℕ → AliasesInput
input_of aliases depth = record {
  raw_aliases = aliases;
  in_providers = λ name. name == codes "mock";
  is_built_in = λ name. name == codes "codex";
  max_depth = depth;
  hash = λ m. [];
}

abbrev two : AliasesInput
two = input_of ((codes "a", child_config) ∷ (codes "z", root_config) ∷ []) 2

abbrev looped : AliasesInput
looped = input_of ((codes "z", child_config) ∷ []) 3

-- An alias that extends itself stops the resolution with the cycle.
self_cycle :
    resolve_provider_aliases looped ≡ err (threw (cycle_detected (codes "z" ∷ codes "z" ∷ [])))
unfolding resolve_provider_aliases sort insert_sorted text_leb keys check_collisions resolve_names
    unvisited_marks registry_of resolve_alias lookup insert list_eq merge_alias from_index
self_cycle = refl

two_deep :
    resolve_provider_aliases
      (input_of ((codes "a", child_config) ∷ (codes "z", root_config) ∷ []) 1)
    ≡ err (threw (max_depth_exceeded (codes "z")))
unfolding resolve_provider_aliases sort insert_sorted text_leb keys check_collisions resolve_names
    unvisited_marks registry_of resolve_alias lookup insert list_eq merge_alias from_index
two_deep = refl

resolve_provider_aliases-terminates_example : resolve_provider_aliases looped ≢ err out_of_fuel
resolve_provider_aliases-terminates_example = resolve_provider_aliases-terminates looped

abbrev root_alias : ResolvedAlias
root_alias = record {
  name = codes "z";
  inheritance_chain = codes "z" ∷ [];
  provider = codes "mock";
  model = some (some (codes "m"));
  thinking_effort = none;
  timeout_ms = some 5;
  retry = PolicyInput.off;
  origins = record {
    provider = codes "z";
    model = some (codes "z");
    thinking_effort = none;
    timeout_ms = some (codes "z");
    retry = some (record { source_alias = codes "z"; field_sources = no_sources });
  };
  digest = codes "sha256:";
}

abbrev child_alias : ResolvedAlias
child_alias = record {
  name = codes "a";
  inheritance_chain = codes "z" ∷ codes "a" ∷ [];
  provider = codes "mock";
  model = some none;
  thinking_effort = none;
  timeout_ms = some 5;
  retry = PolicyInput.off;
  origins = record {
    provider = codes "z";
    model = some (codes "a");
    thinking_effort = none;
    timeout_ms = some (codes "z");
    retry = some (record { source_alias = codes "z"; field_sources = no_sources });
  };
  digest = codes "sha256:";
}

abbrev registry : List (Text × ResolvedAlias)
registry = (codes "z", root_alias) ∷ (codes "a", child_alias) ∷ []

two_resolve : resolve_provider_aliases two ≡ ok registry
unfolding resolve_provider_aliases sort insert_sorted text_leb keys check_collisions resolve_names
    unvisited_marks registry_of resolve_alias lookup insert list_eq merge_alias from_index
two_resolve = refl

resolve_provider_aliases-derive_example :
    ((name : Text) → lookup name registry ≡ derive two 2 name)
    × ((name : Text) (def : AliasConfig)
        → lookup name two.raw_aliases ≡ some def
        → (r : ResolvedAlias) × (lookup name registry ≡ some r) × (length r.inheritance_chain ≤ 2))
resolve_provider_aliases-derive_example = resolve_provider_aliases-derive two registry two_resolve

child_registered : lookup (codes "a") registry ≡ some child_alias
unfolding lookup list_eq
child_registered = refl

resolve_provider_aliases-IsExplained_example :
    IsExplained two child_alias × HasRetry two child_alias
resolve_provider_aliases-IsExplained_example =
    resolve_provider_aliases-IsExplained two registry (codes "a") child_alias two_resolve
      child_registered

nothing : {d : AliasConfig} → none ≢ some d
nothing h = cc

abbrev Sound : Text → Type 0
Sound name =
    (two.is_built_in name ≡ false)
    × (two.in_providers name ≡ false)
    × ((r : ResolvedAlias) × (derive two 2 name ≡ some r))

Sound-child : Sound (codes "a")
unfolding derive merge_alias lookup list_eq
Sound-child = (refl, refl, (child_alias, refl))

Sound-root : Sound (codes "z")
unfolding derive merge_alias lookup list_eq
Sound-root = (refl, refl, (root_alias, refl))

two-Sound : (name : Text) (def : AliasConfig) → lookup name two.raw_aliases ≡ some def → Sound name
unfolding lookup
two-Sound name def h = elim (Bool-cases (codes "a" == name)) [
  | inl a ↦ subst Sound ((list_eq_iff (codes "a") name).0 a) Sound-child
  | inr b ↦ elim (Bool-cases (codes "z" == name)) [
    | inl z ↦ subst Sound ((list_eq_iff (codes "z") name).0 z) Sound-root
    | inr y ↦ absurd (nothing (sym (if_false _ _ _ b ∙ if_false _ _ _ y) ∙ h))
  ]
]

resolve_provider_aliases-returns_example :
    (reg : List (Text × ResolvedAlias)) × (resolve_provider_aliases two ≡ ok reg)
    × ((name : Text) → lookup name reg ≡ derive two 2 name)
resolve_provider_aliases-returns_example =
    resolve_provider_aliases-returns two (omega arith) two-Sound
