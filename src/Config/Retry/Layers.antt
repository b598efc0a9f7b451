-- ===== src/Config/Retry/Layers.antt =====
-- config/retry.ts, `resolveLayeredRetryPolicy`: the retry policy with the layer that each field comes from.
use open_dynamic_workflow.Base.{
  String, Bool, false, not, Option, none, some, if◌then◌else◌, ltb, join,
}
use open_dynamic_workflow.Config.Retry.Selection.{
  ProviderSettingSource, Cell, PolicyField, max_attempts, delay_ms, backoff, max_delay_ms, jitter,
  disable_delay, name, Layers, cell, layers, ResolvedRetrySelection, selection,
}
use open_dynamic_workflow.Config.Policies.{
  Given, omitted, undefined, value, PartialPolicy, RetryCliOverrides, DisabledBy, PolicyInput,
  built_in_default_policy, recommended_enabled_defaults, is_given, replace, cli_fields,
  has_cli_overrides,
}

abbrev pub built_in_layer : Layers
built_in_layer =
    layers false (some DisabledBy.omitted) ProviderSettingSource.built_in "builtIn.retry"
      built_in_default_policy

-- A layer that is an object: its source, the path of the policy and those of its fields.
pub record ObjectLayer : Type 0 where
  pub source : ProviderSettingSource
  pub policy_path : String
  pub field_paths : PolicyField → Option String

module _ (l : ObjectLayer) where
  -- The seed of a field where the policy was not enabled, and the merge of what the layer gives.
  abbrev pub seed_cell {ℓ} : {A : Type ℓ} → PolicyField → Bool → A → Cell A → Cell A
  seed_cell field needs_seed recommended c =
      if needs_seed
      then cell recommended l.source (replace (l.field_paths field) l.policy_path)
      else c

  abbrev pub merge_cell {ℓ} : {A : Type ℓ} → PolicyField → Given A → Cell A → Cell A
  merge_cell field omitted c = c
  merge_cell field undefined c = c
  merge_cell field (value v) c =
      cell v l.source (replace (l.field_paths field) (join l.policy_path (join "." (name field))))

  abbrev pub apply_field {ℓ} : {A : Type ℓ} → PolicyField → Bool → A → Given A → Cell A → Cell A
  apply_field field needs_seed recommended over c =
      merge_cell field over (seed_cell field needs_seed recommended c)

  abbrev pub reason_of : ProviderSettingSource → DisabledBy
  reason_of ProviderSettingSource.agent = DisabledBy.agent
  reason_of ProviderSettingSource.cli = DisabledBy.cli
  reason_of _ = DisabledBy.omitted

  unfoldable pub apply_object_layer : PartialPolicy → Layers → Layers
  apply_object_layer p s =
      let needs_seed = not s.enabled in
      let seed = recommended_enabled_defaults in
      let attempts =
        apply_field max_attempts needs_seed seed.max_attempts p.max_attempts s.attempts in
      let enabled = ltb 1 attempts.current in
      record {
        enabled = enabled;
        source = l.source;
        source_path = l.policy_path;
        disabled_by = if enabled then none else some (reason_of l.source);
        attempts = attempts;
        delay = apply_field delay_ms needs_seed seed.delay_ms p.delay_ms s.delay;
        growth = apply_field backoff needs_seed seed.backoff p.backoff s.growth;
        max_delay =
            apply_field max_delay_ms needs_seed seed.max_delay_ms p.max_delay_ms s.max_delay;
        jittered = apply_field jitter needs_seed seed.jitter p.jitter s.jittered;
        no_delay =
            apply_field disable_delay needs_seed seed.disable_delay p.disable_delay s.no_delay;
      }

abbrev pub apply_disable_layer : ProviderSettingSource → String → DisabledBy → Layers
apply_disable_layer source path reason =
    layers false (some reason) source path built_in_default_policy

-- A layer's input, where there is one.
abbrev pub apply_input : ObjectLayer → DisabledBy → PolicyInput → Layers → Layers
apply_input l reason PolicyInput.absent s = s
apply_input l reason PolicyInput.off s = apply_disable_layer l.source l.policy_path reason
apply_input l reason (PolicyInput.input p) s = apply_object_layer l p s

abbrev pub no_field_paths : PolicyField → Option String
no_field_paths field = none

abbrev pub global_layer : ObjectLayer
global_layer = record {
  source = ProviderSettingSource.global_config;
  policy_path = "config.retry";
  field_paths = no_field_paths;
}

abbrev pub agent_layer : ObjectLayer
agent_layer = record {
  source = ProviderSettingSource.agent;
  policy_path = "agent.retry";
  field_paths = no_field_paths;
}

-- `fieldPaths` of the command line.
abbrev pub cli_field_path : RetryCliOverrides → PolicyField → Option String
cli_field_path c max_attempts =
    if is_given c.max_attempts then some "cli.retryMaxAttempts" else none
cli_field_path c delay_ms = if is_given c.delay_ms then some "cli.retryDelayMs" else none
cli_field_path c max_delay_ms = if is_given c.max_delay_ms then some "cli.retryMaxDelayMs" else none
cli_field_path c backoff = if is_given c.backoff then some "cli.retryBackoff" else none
cli_field_path c disable_delay =
    if is_given c.disable_delay then some "cli.retryDisableDelay" else none
cli_field_path c jitter = none

abbrev pub cli_layer : RetryCliOverrides → ObjectLayer
cli_layer c = record {
  source = ProviderSettingSource.cli;
  policy_path = "cli.retry";
  field_paths = cli_field_path c;
}

abbrev pub keep_no_delay : Option Bool → Layers → Layers
keep_no_delay none s = s
keep_no_delay (some b) s = record {
  enabled = s.enabled;
  source = s.source;
  source_path = s.source_path;
  disabled_by = s.disabled_by;
  attempts = s.attempts;
  delay = s.delay;
  growth = s.growth;
  max_delay = s.max_delay;
  jittered = s.jittered;
  no_delay = cell b ProviderSettingSource.cli "cli.retryDisableDelay";
}

abbrev pub apply_cli : Option RetryCliOverrides → Layers → Layers
apply_cli none s = s
apply_cli (some c) s =
    if c.no_retry
    then keep_no_delay c.disable_delay
        (apply_disable_layer ProviderSettingSource.cli "cli.noRetry" DisabledBy.cli)
    else (if has_cli_overrides c then apply_object_layer (cli_layer c) (cli_fields c) s else s)

-- `aliasProvenance`
pub record AliasProvenance : Type 0 where
  pub policy_path : String
  pub field_paths : PolicyField → Option String

abbrev pub alias_layer : Option AliasProvenance → ObjectLayer
alias_layer none = record {
  source = ProviderSettingSource.provider_alias;
  policy_path = "providerAliases.unknown.retry";
  field_paths = no_field_paths;
}
alias_layer (some from) = record {
  source = ProviderSettingSource.provider_alias;
  policy_path = from.policy_path;
  field_paths = from.field_paths;
}

pub record LayeredInput : Type 0 where
  pub agent : PolicyInput
  pub alias : PolicyInput
  pub alias_provenance : Option AliasProvenance
  pub cli : Option RetryCliOverrides
  pub global : PolicyInput

-- The layers below the agent's, and all of them.
unfoldable pub below_agent : LayeredInput → Layers
unfolding apply_object_layer
below_agent i =
    apply_input (alias_layer i.alias_provenance) DisabledBy.omitted i.alias
      (apply_cli i.cli (apply_input global_layer DisabledBy.omitted i.global built_in_layer))

abbrev pub all_layers : LayeredInput → Layers
all_layers i = apply_input agent_layer DisabledBy.agent i.agent (below_agent i)

unfoldable pub resolve_layered_retry_policy : LayeredInput → ResolvedRetrySelection
unfolding below_agent
resolve_layered_retry_policy i = selection (all_layers i)
