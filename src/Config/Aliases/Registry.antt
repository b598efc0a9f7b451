-- ===== src/Config/Aliases/Registry.antt =====
-- The registry that `resolveProviderAliases` of config/provider-aliases.ts returns.
mod Entries
use open_dynamic_workflow.Base.{
  ℕ, ◌≤◌, ◌≡◌, ◌≢◌, Bool, true, false, Option, none, some, List, [], ◌∷◌, length, Text, lookup,
  lookup-insert, lookup-insert-cases, ok, bind_ok, arith, nat_eq, Bool-cases, inl, inr, if_true,
  if_false, if◌then◌else◌, ℕ_eq, List_eq, List_eq, list_eq_iff, refl, sym, ap, subst, ◌∙◌,
  Option-cases, ◌==◌, eq_refl,
}
use open_dynamic_workflow.Config.Aliases.Data.{
  AliasConfig, ResolvedAlias, AliasesInput, Mark, unvisited, visiting, resolved,
}
use open_dynamic_workflow.Config.Aliases.Sorting.{
  sort, keys, contains, contains-sort, contains-keys, keys-contains,
}
use open_dynamic_workflow.Config.Aliases.{
  Marks, lift, check_collisions, resolve_alias, resolve_names, unvisited_marks, resolved_of,
  with_entry, registry_of, enough_fuel, resolve_provider_aliases,
}
use open_dynamic_workflow.Config.Aliases.Reference.{derive, derive-unknown, derive-chain-le}
use open_dynamic_workflow.Config.Aliases.Sound.{
  Marked, Keeps, resolve_alias-IsSound, ok_inj, err_ok,
}
use open_dynamic_workflow.Config.Aliases.Complete.{resolve_alias-IsComplete, ok_bind}
use open_dynamic_workflow.Config.Aliases.Registry.Entries.{
  resolved_of-some, if_same, if_both, none-some, unvisited_resolved, unvisited_visiting,
  unvisited_marks-unvisited, registry_of-lookup,
}

module _ (c : AliasesInput) where
  record NamesGive (names : List Text) (marks later : Marks) : Type 0 where
    marked : Marked c later
    keeps : Keeps c marks later
    noted :
        (v : Text)
        → contains v names ≡ true
        → (r : ResolvedAlias) × (lookup v later ≡ some (resolved r))

  resolve_names-NamesGive :
      (fuel : ℕ) (names : List Text) (marks later : Marks)
      → Marked c marks
      → resolve_names c fuel names marks ≡ ok later
      → NamesGive names marks later
  unfolding resolve_names contains
  resolve_names-NamesGive fuel [] marks later h e =
      subst (NamesGive [] marks) (ok_inj e)
        (record { marked = h; keeps = λ v s x. x; noted = λ v x. cc })
  resolve_names-NamesGive fuel (name ∷ names) marks later h e =
      let (p, x, y) = bind_ok (resolve_alias c fuel name [] marks) _ e in
      let g = resolve_alias-IsSound c fuel name [] marks p h x in
      let rest = resolve_names-NamesGive fuel names (p.1) later g.marked y in
      record {
        marked = rest.marked;
        keeps = λ v s z. rest.keeps v s (g.keeps v s z);
        noted = λ v z. elim (Bool-cases (name == v)) [
          | inl same ↦ (
            p.0,
            subst (λ u. lookup u later ≡ some (resolved (p.0))) ((list_eq_iff name v).0 same)
                (rest.keeps name (p.0) g.noted),
          )
          | inr other ↦ rest.noted v (sym (if_false _ _ _ other) ∙ z)
        ];
      }

  abbrev IsDerived : List (Text × ResolvedAlias) → Type 0
  IsDerived reg = (name : Text) → lookup name reg ≡ derive c c.max_depth name

  -- A name of the configuration stands among the sorted names.
  known :
      (name : Text) (def : AliasConfig)
      → lookup name c.raw_aliases ≡ some def
      → contains name (sort (keys c.raw_aliases)) ≡ true
  known name def e =
      contains-sort name (keys c.raw_aliases) ∙ contains-keys name c.raw_aliases def e

  not_resolved :
      (name : Text) (later : Marks)
      → lookup name c.raw_aliases ≡ none
      → Marked c later
      → resolved_of (lookup name later) ≡ none
  not_resolved name later e h = elim (Option-cases (resolved_of (lookup name later))) [
    | inl x ↦ x
    | inr (r, x) ↦ absurd (
        none-some (
          sym (derive-unknown c c.max_depth name e)
          ∙ h name r (resolved_of-some (lookup name later) r x)))
  ]

  registry-IsDerived :
      (later : Marks)
      → NamesGive (sort (keys c.raw_aliases)) (unvisited_marks (sort (keys c.raw_aliases))) later
      → IsDerived (registry_of (sort (keys c.raw_aliases)) later)
  registry-IsDerived later g name =
      let names = sort (keys c.raw_aliases) in
      elim (Option-cases (lookup name c.raw_aliases)) [
        | inl e ↦
            registry_of-lookup names later name
            ∙ ap (λ o. if contains name names then o else none) (not_resolved name later e g.marked)
            ∙ if_same (contains name names) none
            ∙ sym (derive-unknown c c.max_depth name e)
        | inr (def, e) ↦
            let (r, x) = g.noted name (known name def e) in
            registry_of-lookup names later name
            ∙ if_true _ _ _ (known name def e)
            ∙ ap resolved_of x
            ∙ sym (g.marked name r x)
      ]

  no_collisions :
      (names : List Text)
      → ((name : Text)
          → contains name names ≡ true
          → (c.is_built_in name ≡ false) × (c.in_providers name ≡ false))
      → check_collisions c names ≡ ok _
  unfolding check_collisions contains
  no_collisions [] h = refl
  no_collisions (name ∷ names) h =
      let here = h name (if_true (name == name) true (contains name names) (eq_refl name)) in
      if_false _ _ _ here.0
      ∙ if_false _ _ _ here.1
      ∙ no_collisions names (λ v e. h v (if_both (name == v) (contains v names) e))

  resolve_names-Returns :
      (names : List Text) (marks : Marks)
      → ((name : Text)
          → contains name names ≡ true
          → (r : ResolvedAlias) × (derive c c.max_depth name ≡ some r))
      → Marked c marks
      → ((v : Text) → lookup v marks ≢ some visiting)
      → (later : Marks) × (resolve_names c (enough_fuel c) names marks ≡ ok later)
  unfolding resolve_names contains
  resolve_names-Returns [] marks all h free = (marks, refl)
  resolve_names-Returns (name ∷ names) marks all h free =
      let (r, d) = all name (if_true (name == name) true (contains name names) (eq_refl name)) in
      let g =
        resolve_alias-IsComplete c (enough_fuel c) name [] marks r d
          (omega (arith, derive-chain-le c c.max_depth name r d)) (omega arith) h
          (λ v s e x. absurd (free v e)) in
      let sound = resolve_alias-IsSound c (enough_fuel c) name [] marks (r, g.later) h g.runs in
      let rest =
        resolve_names-Returns names g.later
          (λ v e. all v (if_both (name == v) (contains v names) e)) sound.marked
          (λ v e. free v (g.free v e)) in
      (
        rest.0,
        ok_bind (resolve_alias c (enough_fuel c) name [] marks) _ (r, g.later) g.runs ∙ rest.1,
      )

  resolve_provider_aliases-passes :
      (reg : List (Text × ResolvedAlias))
      → resolve_provider_aliases c ≡ ok reg
      → (later : Marks) × NamesGive
          (sort (keys c.raw_aliases))
          (unvisited_marks (sort (keys c.raw_aliases)))
          later
        × (registry_of (sort (keys c.raw_aliases)) later ≡ reg)
  unfolding resolve_provider_aliases
  resolve_provider_aliases-passes reg h =
      let names = sort (keys c.raw_aliases) in
      elim (Bool-cases (nat_eq c.max_depth 0)) [
        | inl z ↦ absurd (err_ok (sym (if_true _ _ _ z) ∙ h))
        | inr n ↦
            let (_, _, after) =
              bind_ok (lift (check_collisions c names)) _ (sym (if_false _ _ _ n) ∙ h) in
            let (later, x, y) =
              bind_ok (resolve_names c (enough_fuel c) names (unvisited_marks names)) _ after in
            (
              later,
              resolve_names-NamesGive (enough_fuel c) names (unvisited_marks names) later
                  (λ v s e.
                    absurd (unvisited_resolved (unvisited_marks-unvisited names v (resolved s) e)))
                  x,
              ok_inj y,
            )
      ]

  -- Where the resolution returns, every alias of the configuration stands in the registry, and what
  -- stands there for a name is what the chain of its definitions alone gives, with no more aliases
  -- than the greatest depth, whatever the order in which the names are resolved and whatever was
  -- resolved before; nothing else stands there.
  pub resolve_provider_aliases-derive :
      (reg : List (Text × ResolvedAlias))
      → resolve_provider_aliases c ≡ ok reg
      → ((name : Text) → lookup name reg ≡ derive c c.max_depth name)
        × ((name : Text) (def : AliasConfig)
            → lookup name c.raw_aliases ≡ some def
            → (r : ResolvedAlias) × (lookup name reg ≡ some r)
              × (length r.inheritance_chain ≤ c.max_depth))
  resolve_provider_aliases-derive reg h =
      let (later, g, e) = resolve_provider_aliases-passes reg h in
      let all = subst IsDerived e (registry-IsDerived later g) in
      (
        all,
        λ name def raw.
            let (r, x) = g.noted name (known name def raw) in
            let d = g.marked name r x in (r, all name ∙ d, derive-chain-le c c.max_depth name r d),
      )

  -- Where the greatest depth is not zero, no alias has the name of a provider, and each alias has a
  -- chain of definitions, no longer than the greatest depth, that gives it a provider there is, the
  -- resolution returns, and the registry holds what the chains give.
  pub resolve_provider_aliases-returns :
      1 ≤ c.max_depth
      → ((name : Text) (def : AliasConfig)
          → lookup name c.raw_aliases ≡ some def
          → (c.is_built_in name ≡ false)
            × (c.in_providers name ≡ false)
            × ((r : ResolvedAlias) × (derive c c.max_depth name ≡ some r)))
      → (reg : List (Text × ResolvedAlias)) × (resolve_provider_aliases c ≡ ok reg)
        × ((name : Text) → lookup name reg ≡ derive c c.max_depth name)
  unfolding resolve_provider_aliases
  resolve_provider_aliases-returns pos all =
      let names = sort (keys c.raw_aliases) in
      let raw = λ (name : Text) (e : contains name names ≡ true).
        keys-contains name c.raw_aliases (sym (contains-sort name (keys c.raw_aliases)) ∙ e) in
      let clear =
        no_collisions names (λ v e. let (d, x) = raw v e in let a = all v d x in (a.0, a.1)) in
      let (later, runs) =
        resolve_names-Returns names (unvisited_marks names)
          (λ v e. let (d, x) = raw v e in let a = all v d x in a.2)
          (λ v s e. absurd (unvisited_resolved (unvisited_marks-unvisited names v (resolved s) e)))
          (λ v e. unvisited_visiting (unvisited_marks-unvisited names v visiting e)) in
      let returns =
        if_false (nat_eq c.max_depth 0) _ _ (ground (arith, pos))
        ∙ ok_bind (lift (check_collisions c names)) _ _ (ap lift clear)
        ∙ ok_bind (resolve_names c (enough_fuel c) names (unvisited_marks names)) _ later runs in
      (
        registry_of names later,
        returns,
        (resolve_provider_aliases-derive (registry_of names later) returns).0,
      )
