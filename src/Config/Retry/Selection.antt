-- ===== src/Config/Retry/Selection.antt =====
-- config/retry.ts: the variables of `resolveLayeredRetryPolicy` and what it returns, after
-- types/provider-selection.ts. A field of the policy and its entry of `fieldSources` are one cell.
use open_dynamic_workflow.Base.{ℕ, String, Bool, Option, if◌then◌else◌}
use open_dynamic_workflow.Retry.Delay.{RetryPolicy, Backoff}
use open_dynamic_workflow.Config.Policies.{PolicySource, DisabledBy, ResolvedRetryPolicy}

pub data ProviderSettingSource : Type 0 where
  agent provider_alias cli provider_config global_config built_in : ProviderSettingSource

-- `ProviderSettingValue`
pub record Setting {ℓ} (A : Type ℓ) : Type ℓ where
  pub value : A
  pub source : ProviderSettingSource
  pub source_path : String

pub record Cell {ℓ} (A : Type ℓ) : Type ℓ where
  pub current : A
  pub setting : Setting A

-- `keyof RetryPolicy`
pub data PolicyField : Type 0 where
  max_attempts delay_ms backoff max_delay_ms jitter disable_delay : PolicyField

abbrev pub name : PolicyField → String
name max_attempts = "maxAttempts"
name delay_ms = "delayMs"
name backoff = "backoff"
name max_delay_ms = "maxDelayMs"
name jitter = "jitter"
name disable_delay = "disableDelay"

-- The variables of the function.
pub record Layers : Type 0 where
  pub enabled : Bool
  pub source : ProviderSettingSource
  pub source_path : String
  pub disabled_by : Option DisabledBy
  pub attempts : Cell ℕ
  pub delay : Cell ℕ
  pub growth : Cell Backoff
  pub max_delay : Cell ℕ
  pub jittered : Cell Bool
  pub no_delay : Cell Bool

-- A cell that a layer sets.
abbrev pub cell {ℓ} : {A : Type ℓ} → A → ProviderSettingSource → String → Cell A
cell v source path = record {
  current = v;
  setting = record { value = v; source = source; source_path = path };
}

-- All cells as a policy says, with one source.
abbrev pub layers : Bool → Option DisabledBy → ProviderSettingSource → String → RetryPolicy → Layers
layers enabled disabled_by source path p = record {
  enabled = enabled;
  source = source;
  source_path = path;
  disabled_by = disabled_by;
  attempts = cell p.max_attempts source path;
  delay = cell p.delay_ms source path;
  growth = cell p.backoff source path;
  max_delay = cell p.max_delay_ms source path;
  jittered = cell p.jitter source path;
  no_delay = cell p.disable_delay source path;
}

-- The source of a resolved policy is that of the settings, cast.
abbrev pub policy_source : ProviderSettingSource → PolicySource
policy_source ProviderSettingSource.agent = PolicySource.agent
policy_source ProviderSettingSource.provider_alias = PolicySource.provider_alias
policy_source ProviderSettingSource.cli = PolicySource.cli
policy_source ProviderSettingSource.provider_config = PolicySource.provider_config
policy_source ProviderSettingSource.global_config = PolicySource.global_config
policy_source ProviderSettingSource.built_in = PolicySource.built_in

pub record FieldSources : Type 0 where
  pub max_attempts : Setting ℕ
  pub delay_ms : Setting ℕ
  pub backoff : Setting Backoff
  pub max_delay_ms : Setting ℕ
  pub jitter : Setting Bool
  pub disable_delay : Setting Bool

pub record ResolvedRetrySelection : Type 0 where
  pub value : ResolvedRetryPolicy
  pub source : ProviderSettingSource
  pub source_path : String
  pub field_sources : FieldSources

abbrev pub selection : Layers → ResolvedRetrySelection
selection s = record {
  value = record {
    enabled = s.enabled;
    policy = record {
      max_attempts = s.attempts.current;
      delay_ms = s.delay.current;
      backoff = s.growth.current;
      max_delay_ms = s.max_delay.current;
      jitter = s.jittered.current;
      disable_delay = s.no_delay.current;
    };
    source = if s.enabled then policy_source s.source else PolicySource.disabled;
    disabled_by = s.disabled_by;
  };
  source = s.source;
  source_path = s.source_path;
  field_sources = record {
    max_attempts = s.attempts.setting;
    delay_ms = s.delay.setting;
    backoff = s.growth.setting;
    max_delay_ms = s.max_delay.setting;
    jitter = s.jittered.setting;
    disable_delay = s.no_delay.setting;
  };
}
