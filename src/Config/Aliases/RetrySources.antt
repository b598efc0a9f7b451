-- ===== src/Config/Aliases/RetrySources.antt =====
-- Where the fields of an alias's retry policy come from: the merge of retry in `resolveAlias` of
-- config/provider-aliases.ts.
use open_dynamic_workflow.Base.{
  Option, none, some, List, [], ◌∷◌, ◌++◌, Text, lookup, ◌≡◌, refl, sym, ap, ap₂, ◌∙◌, ℕ_eq,
  List_eq,
}
use open_dynamic_workflow.Config.Policies.{
  Given, omitted, undefined, value, PartialPolicy, PolicyInput,
}
use open_dynamic_workflow.Config.Aliases.Data.{
  AliasConfig, FieldSources, RetryProvenance, AliasesInput,
}
use open_dynamic_workflow.Config.Aliases.Merge.{
  canonical_field, canonicalize_policy, over_field, spread_policies, source_field, source_fields,
  no_sources, sources_of, merge_retry,
}

-- A field of a retry policy and the record of where it came from.
pub record RetryField (A : Type 0) : Type 0 where
  pub get : PartialPolicy → Given A
  pub source : FieldSources → Option Text
  pub canonical : (p : PartialPolicy) → get (canonicalize_policy p) ≡ canonical_field (get p)
  pub spread :
      (base over : PartialPolicy)
      → get (spread_policies base over) ≡ over_field (get base) (get over)
  pub marked :
      (name : Text) (p : PartialPolicy) (s : FieldSources)
      → source (source_fields name p s) ≡ source_field name (get p) (source s)
  pub unmarked : source no_sources ≡ none

abbrev given_value : {A : Type 0} → Given A → Option A
given_value (value v) = some v
given_value _ = none

-- A field with the alias that it came from, after one more alias of the chain: a policy that is off
-- forgets it, a policy without the field keeps it.
abbrev next_field : {A : Type 0} → Text → Given A → Option A × Option Text → Option A × Option Text
next_field name omitted acc = acc
next_field name undefined acc = (none, some name)
next_field name (value v) acc = (some v, some name)

abbrev next_policy :
    {A : Type 0}
    → (PartialPolicy → Given A)
    → Text
    → PolicyInput
    → Option A × Option Text
    → Option A × Option Text
next_policy get name PolicyInput.absent acc = acc
next_policy get name PolicyInput.off acc = (none, none)
next_policy get name (PolicyInput.input p) acc = next_field name (get p) acc

abbrev field_value : {A : Type 0} → (PartialPolicy → Given A) → PolicyInput → Option A
field_value get (PolicyInput.input p) = given_value (get p)
field_value get _ = none

-- The field of a merged policy, and where it came from.
abbrev pub in_force :
    {A : Type 0}
    → (PartialPolicy → Given A)
    → (FieldSources → Option Text)
    → PolicyInput × Option RetryProvenance
    → Option A × Option Text
in_force get source (policy, origin) = (field_value get policy, source (sources_of origin))

abbrev definition_retry : Option AliasConfig → PolicyInput
definition_retry none = PolicyInput.absent
definition_retry (some def) = def.retry

given_value-canonical : {A : Type 0} (g : Given A) → given_value (canonical_field g) ≡ given_value g
given_value-canonical omitted = refl
given_value-canonical undefined = refl
given_value-canonical (value v) = refl

next_field-over :
    {A : Type 0} (name : Text) (base over : Given A) (source : Option Text)
    → (given_value (over_field base over), source_field name over source)
      ≡ next_field name over (given_value base, source)
next_field-over name base omitted source = refl
next_field-over name base undefined source = refl
next_field-over name base (value v) source = refl

next_field-none :
    {A : Type 0} (name : Text) (over : Given A)
    → (given_value over, source_field name over none) ≡ next_field name over (none, none)
next_field-none name omitted = refl
next_field-none name undefined = refl
next_field-none name (value v) = refl

module _ {A : Type 0} (f : RetryField A) where
  -- A policy that is no object has no source for the field.
  abbrev IsBlank : PolicyInput → Option RetryProvenance → Type 0
  IsBlank (PolicyInput.input p) origin = Unit
  IsBlank policy origin = f.source (sources_of origin) ≡ none

  merge_retry-IsBlank :
      (name : Text) (child inherited : PolicyInput) (origin : Option RetryProvenance)
      → IsBlank inherited origin
      → IsBlank
          ((merge_retry name child inherited origin).0)
          ((merge_retry name child inherited origin).1)
  merge_retry-IsBlank name PolicyInput.absent PolicyInput.absent origin h = f.unmarked
  merge_retry-IsBlank name PolicyInput.absent PolicyInput.off origin h = h
  merge_retry-IsBlank name PolicyInput.absent (PolicyInput.input p) origin h = _
  merge_retry-IsBlank name PolicyInput.off inherited origin h = f.unmarked
  merge_retry-IsBlank name (PolicyInput.input q) PolicyInput.absent origin h = _
  merge_retry-IsBlank name (PolicyInput.input q) PolicyInput.off origin h = _
  merge_retry-IsBlank name (PolicyInput.input q) (PolicyInput.input p) origin h = _

  -- A policy over none.
  in_force-alone :
      (name : Text) (q : PartialPolicy)
      → (given_value (f.get (canonicalize_policy q)), f.source (source_fields name q no_sources))
        ≡ next_field name (f.get q) (none, none)
  in_force-alone name q =
      ap₂ (λ v s. (v, s)) (ap given_value (f.canonical q) ∙ given_value-canonical (f.get q))
        (f.marked name q no_sources ∙ ap (source_field name (f.get q)) f.unmarked)
      ∙ next_field-none name (f.get q)

  merge_retry-next_policy :
      (name : Text) (child inherited : PolicyInput) (origin : Option RetryProvenance)
      → IsBlank inherited origin
      → in_force f.get f.source (merge_retry name child inherited origin)
        ≡ next_policy f.get name child (in_force f.get f.source (inherited, origin))
  merge_retry-next_policy name PolicyInput.absent PolicyInput.absent origin h =
      ap (λ s. (none, s)) (f.unmarked ∙ sym h)
  merge_retry-next_policy name PolicyInput.absent PolicyInput.off origin h = refl
  merge_retry-next_policy name PolicyInput.absent (PolicyInput.input p) origin h =
      ap (λ v. (v, f.source (sources_of origin)))
        (ap given_value (f.canonical p) ∙ given_value-canonical (f.get p))
  merge_retry-next_policy name PolicyInput.off inherited origin h = ap (λ s. (none, s)) f.unmarked
  merge_retry-next_policy name (PolicyInput.input q) PolicyInput.absent origin h =
      in_force-alone name q ∙ ap (λ s. next_field name (f.get q) (none, s)) (sym h)
  merge_retry-next_policy name (PolicyInput.input q) PolicyInput.off origin h =
      in_force-alone name q ∙ ap (λ s. next_field name (f.get q) (none, s)) (sym h)
  merge_retry-next_policy name (PolicyInput.input q) (PolicyInput.input p) origin h =
      ap₂ (λ v s. (v, s))
        (ap given_value (f.canonical (spread_policies p q))
          ∙ given_value-canonical (f.get (spread_policies p q))
          ∙ ap given_value (f.spread p q))
        (f.marked name q (sources_of origin))
      ∙ next_field-over name (f.get p) (f.get q) (f.source (sources_of origin))

module _ (c : AliasesInput) where
  -- What the definitions of a chain, from its root on, say of a field, with the alias that says it.
  unfoldable pub effective :
      {A : Type 0}
      → (PartialPolicy → Given A)
      → List Text
      → Option A × Option Text
      → Option A × Option Text
  effective get [] acc = acc
  effective get (x ∷ xs) acc =
      effective get xs (next_policy get x (definition_retry (lookup x c.raw_aliases)) acc)

  effective-append :
      {A : Type 0} (get : PartialPolicy → Given A) (xs : List Text) (name : Text)
      (acc : Option A × Option Text)
      → effective get (xs ++ name ∷ []) acc
        ≡ next_policy get name (definition_retry (lookup name c.raw_aliases)) (effective get xs acc)
  unfolding effective
  effective-append get [] name acc = refl
  effective-append get (x ∷ xs) name acc =
      effective-append get xs name
        (next_policy get x (definition_retry (lookup x c.raw_aliases)) acc)

  -- The field that an alias has, and its source, are what its chain says.
  pub record IsEffective {A : Type 0} (f : RetryField A) (chain : List Text) (policy : PolicyInput)
      (origin : Option RetryProvenance) : Type 0 where
    pub said : in_force f.get f.source (policy, origin) ≡ effective f.get chain (none, none)
    pub blank : IsBlank f policy origin

  pub merge_retry-IsEffective :
      {A : Type 0} (f : RetryField A) (name : Text) (chain : List Text) (def : AliasConfig)
      (inherited : PolicyInput) (origin : Option RetryProvenance)
      → lookup name c.raw_aliases ≡ some def
      → IsEffective f chain inherited origin
      → IsEffective f
          (chain ++ name ∷ [])
          ((merge_retry name def.retry inherited origin).0)
          ((merge_retry name def.retry inherited origin).1)
  merge_retry-IsEffective f name chain def inherited origin raw h = record {
    said =
        merge_retry-next_policy f name def.retry inherited origin h.blank
        ∙ ap₂ (λ r acc. next_policy f.get name r acc) (sym (ap definition_retry raw)) h.said
        ∙ sym (effective-append f.get chain name (none, none));
    blank = merge_retry-IsBlank f name def.retry inherited origin h.blank;
  }

  pub no_policy-IsEffective :
      {A : Type 0} (f : RetryField A) → IsEffective f [] PolicyInput.absent none
  unfolding effective
  no_policy-IsEffective f = record { said = ap (λ s. (none, s)) f.unmarked; blank = f.unmarked }
