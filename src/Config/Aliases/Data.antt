-- ===== src/Config/Aliases/Data.antt =====
-- The data of config/provider-aliases.ts: the definitions as their validation lets them through, the
-- resolved aliases with the origins of their settings, and the errors.
use open_dynamic_workflow.Base.{ℕ, Bool, Option, List, Text}
use open_dynamic_workflow.Config.Policies.{PolicyInput}

pub data ThinkingEffort : Type 0 where
  off minimal low medium high xhigh : ThinkingEffort

-- `ProviderAliasConfig`: a field that is there has a value of its type. A model may be null.
pub record AliasConfig : Type 0 where
  pub provider : Option Text
  pub extends : Option Text
  pub model : Option (Option Text)
  pub thinking_effort : Option ThinkingEffort
  pub timeout_ms : Option ℕ
  pub retry : PolicyInput

-- `Partial<Record<keyof RetryPolicy, string>>`
pub record FieldSources : Type 0 where
  pub max_attempts : Option Text
  pub delay_ms : Option Text
  pub backoff : Option Text
  pub max_delay_ms : Option Text
  pub jitter : Option Text
  pub disable_delay : Option Text

-- `ProviderAliasRetryProvenance`
pub record RetryProvenance : Type 0 where
  pub source_alias : Text
  pub field_sources : FieldSources

-- The field `origins` of a resolved alias.
pub record Origins : Type 0 where
  pub provider : Text
  pub model : Option Text
  pub thinking_effort : Option Text
  pub timeout_ms : Option Text
  pub retry : Option RetryProvenance

-- What the digest of an alias is made of.
pub record DigestMaterial : Type 0 where
  pub name : Text
  pub inheritance_chain : List Text
  pub provider : Text
  pub model : Option (Option Text)
  pub thinking_effort : Option ThinkingEffort
  pub timeout_ms : Option ℕ
  pub retry : PolicyInput

-- `ResolvedProviderAlias`
pub record ResolvedAlias : Type 0 where
  pub name : Text
  pub inheritance_chain : List Text
  pub provider : Text
  pub model : Option (Option Text)
  pub thinking_effort : Option ThinkingEffort
  pub timeout_ms : Option ℕ
  pub retry : PolicyInput
  pub origins : Origins
  pub digest : Text

-- `ResolveProviderAliasesInput`. The tests of names are `builtInProviderNames.has(name)` and
-- `name in providers`, which sees inherited names too; `hash` is the hexadecimal SHA-256 of the JSON
-- text of the material, by the platform's `createHash` and `JSON.stringify`.
pub record AliasesInput : Type 0 where
  pub raw_aliases : List (Text × AliasConfig)
  pub in_providers : Text → Bool
  pub is_built_in : Text → Bool
  pub max_depth : ℕ
  pub hash : DigestMaterial → Text

-- What `state` and `resolved` hold for a name.
pub data Mark : Type 0 where
  unvisited visiting : Mark
  resolved : ResolvedAlias → Mark

pub data CollisionType : Type 0 where
  built_in configured_provider : CollisionType

-- The codes of the errors with what their messages name. That of an exceeded depth spells out the
-- chain above the alias too, which is left out.
pub data AliasError : Type 0 where
  invalid_definition : Text → AliasError
  namespace_conflict : Text → CollisionType → AliasError
  cycle_detected : List Text → AliasError
  max_depth_exceeded : Text → AliasError
  parent_not_found : Text → Text → AliasError
  provider_replacement : Text → Text → Text → AliasError
  provider_required : Text → AliasError
  provider_not_found : Text → Text → AliasError

pub data Stop : Type 0 where
  out_of_fuel : Stop
  threw : AliasError → Stop
