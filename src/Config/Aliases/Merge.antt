-- ===== src/Config/Aliases/Merge.antt =====
-- The merge of an alias with its resolved parent, in `resolveAlias` of config/provider-aliases.ts.
use open_dynamic_workflow.Base.{
  Option, none, some, List, [], ◌∷◌, ◌++◌, if◌then◌else◌, ◌==◌, Text, codes, Result, ok, err, ◌>>=◌,
  ℕ_eq, List_eq,
}
use open_dynamic_workflow.Config.Policies.{Given, omitted, value, PartialPolicy, PolicyInput}
use open_dynamic_workflow.Config.Aliases.Data.{
  AliasConfig, FieldSources, RetryProvenance, DigestMaterial, ResolvedAlias, AliasesInput,
  AliasError, provider_required, provider_replacement, provider_not_found,
}

-- `if (field in retry) { if (val !== undefined) result[field] = val; }`
abbrev pub canonical_field {ℓ} : {A : Type ℓ} → Given A → Given A
canonical_field (value v) = value v
canonical_field _ = omitted

abbrev pub canonicalize_policy : PartialPolicy → PartialPolicy
canonicalize_policy p = record {
  max_attempts = canonical_field p.max_attempts;
  delay_ms = canonical_field p.delay_ms;
  backoff = canonical_field p.backoff;
  max_delay_ms = canonical_field p.max_delay_ms;
  jitter = canonical_field p.jitter;
  disable_delay = canonical_field p.disable_delay;
}

abbrev pub canonicalize_retry : PolicyInput → PolicyInput
canonicalize_retry (PolicyInput.input p) = PolicyInput.input (canonicalize_policy p)
canonicalize_retry other = other

-- A field of `{ ...base, ...over }`.
abbrev pub over_field {ℓ} : {A : Type ℓ} → Given A → Given A → Given A
over_field base omitted = base
over_field base over = over

abbrev pub spread_policies : PartialPolicy → PartialPolicy → PartialPolicy
spread_policies base over = record {
  max_attempts = over_field base.max_attempts over.max_attempts;
  delay_ms = over_field base.delay_ms over.delay_ms;
  backoff = over_field base.backoff over.backoff;
  max_delay_ms = over_field base.max_delay_ms over.max_delay_ms;
  jitter = over_field base.jitter over.jitter;
  disable_delay = over_field base.disable_delay over.disable_delay;
}

-- `for (const k of Object.keys(childRetry)) fieldSources[k] = name;`
abbrev pub source_field {ℓ} : {A : Type ℓ} → Text → Given A → Option Text → Option Text
source_field name omitted source = source
source_field name _ source = some name

abbrev pub source_fields : Text → PartialPolicy → FieldSources → FieldSources
source_fields name p s = record {
  max_attempts = source_field name p.max_attempts s.max_attempts;
  delay_ms = source_field name p.delay_ms s.delay_ms;
  backoff = source_field name p.backoff s.backoff;
  max_delay_ms = source_field name p.max_delay_ms s.max_delay_ms;
  jitter = source_field name p.jitter s.jitter;
  disable_delay = source_field name p.disable_delay s.disable_delay;
}

abbrev pub no_sources : FieldSources
no_sources = record {
  max_attempts = none;
  delay_ms = none;
  backoff = none;
  max_delay_ms = none;
  jitter = none;
  disable_delay = none;
}

abbrev pub sources_of : Option RetryProvenance → FieldSources
sources_of none = no_sources
sources_of (some p) = p.field_sources

abbrev pub provenance : Text → FieldSources → Option RetryProvenance
provenance name sources = some (record { source_alias = name; field_sources = sources })

-- The retry policy of a definition, with that of the parent and where it came from.
abbrev pub merge_retry :
    Text → PolicyInput → PolicyInput → Option RetryProvenance → PolicyInput × Option RetryProvenance
merge_retry name PolicyInput.absent PolicyInput.absent origin = (PolicyInput.absent, none)
merge_retry name PolicyInput.absent inherited origin = (canonicalize_retry inherited, origin)
merge_retry name PolicyInput.off inherited origin = (PolicyInput.off, provenance name no_sources)
merge_retry name (PolicyInput.input child) (PolicyInput.input base) origin = (
  canonicalize_retry (PolicyInput.input (spread_policies base child)),
  provenance name (source_fields name child (sources_of origin)),
)
merge_retry name (PolicyInput.input child) inherited origin = (
  canonicalize_retry (PolicyInput.input child),
  provenance name (source_fields name child no_sources),
)

-- A setting and where it came from: that of the definition, or that of the parent.
abbrev pub merge_setting {ℓ} :
    {A : Type ℓ} → Text → Option A → Option A → Option Text → Option A × Option Text
merge_setting name (some v) inherited origin = (some v, some name)
merge_setting name none (some v) origin = (some v, origin)
merge_setting name none none origin = (none, none)

-- `parentResolved && parentResolved.field`
abbrev pub of_parent {ℓ} :
    {A : Type ℓ} → (ResolvedAlias → Option A) → Option ResolvedAlias → Option A
of_parent field none = none
of_parent field (some r) = field r

abbrev pub retry_of_parent : Option ResolvedAlias → PolicyInput
retry_of_parent none = PolicyInput.absent
retry_of_parent (some r) = r.retry

-- The provider and the alias that names it.
abbrev pub merge_provider :
    Text → Option Text → Option ResolvedAlias → Result AliasError (Text × Text)
merge_provider name none (some r) = ok (r.provider, r.origins.provider)
merge_provider name (some provider) (some r) =
    if provider == r.provider
    then ok (r.provider, r.origins.provider)
    else err (provider_replacement name r.provider provider)
merge_provider name none none = err (provider_required name)
merge_provider name (some provider) none = ok (provider, name)

abbrev pub chain_of_parent : Option ResolvedAlias → List Text
chain_of_parent none = []
chain_of_parent (some r) = r.inheritance_chain

abbrev pub compute_digest : (DigestMaterial → Text) → DigestMaterial → Text
compute_digest hash material = codes "sha256:" ++ hash material

module _ (c : AliasesInput) where
  abbrev pub resolved_alias :
      Text → AliasConfig → Option ResolvedAlias → Text × Text → ResolvedAlias
  resolved_alias name def parent (provider, source) =
      let chain = chain_of_parent parent ++ name ∷ [] in
      let model =
        merge_setting name def.model (of_parent (λ r. r.model) parent)
          (of_parent (λ r. r.origins.model) parent) in
      let effort =
        merge_setting name def.thinking_effort (of_parent (λ r. r.thinking_effort) parent)
          (of_parent (λ r. r.origins.thinking_effort) parent) in
      let timeout =
        merge_setting name def.timeout_ms (of_parent (λ r. r.timeout_ms) parent)
          (of_parent (λ r. r.origins.timeout_ms) parent) in
      let retry =
        merge_retry name def.retry (retry_of_parent parent)
          (of_parent (λ r. r.origins.retry) parent) in
      record {
        name = name;
        inheritance_chain = chain;
        provider = provider;
        model = model.0;
        thinking_effort = effort.0;
        timeout_ms = timeout.0;
        retry = retry.0;
        origins = record {
          provider = source;
          model = model.1;
          thinking_effort = effort.1;
          timeout_ms = timeout.1;
          retry = retry.1;
        };
        digest = compute_digest c.hash (record {
          name = name;
          inheritance_chain = chain;
          provider = provider;
          model = model.0;
          thinking_effort = effort.0;
          timeout_ms = timeout.0;
          retry = retry.0;
        });
      }

  abbrev pub checked_alias :
      Text → AliasConfig → Option ResolvedAlias → Text × Text → Result AliasError ResolvedAlias
  checked_alias name def parent (provider, source) =
      if c.in_providers provider
      then ok (resolved_alias name def parent (provider, source))
      else err (provider_not_found name provider)

  unfoldable pub merge_alias :
      Text → AliasConfig → Option ResolvedAlias → Result AliasError ResolvedAlias
  merge_alias name def parent =
      merge_provider name def.provider parent >>= checked_alias name def parent
