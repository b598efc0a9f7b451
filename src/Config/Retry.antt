-- ===== src/Config/Retry.antt =====
-- config/retry.ts, `resolveGlobalRetryPolicy` and `resolveAgentRetryPolicy`: the policy of a run from the
-- configuration and the command line, and that of an agent call.
pub mod Selection
pub mod Layers
pub mod Laws
pub mod Agreement
pub mod Equivalence
mod Examples
use open_dynamic_workflow.Base.{Bool, true, false, Option, none, some, if◌then◌else◌, ltb}
use open_dynamic_workflow.Retry.Delay.{RetryPolicy}
use open_dynamic_workflow.Config.Policies.{
  PartialPolicy, RetryCliOverrides, PolicySource, DisabledBy, ResolvedRetryPolicy, ConfigRetry,
  PolicyInput, built_in_default_policy, recommended_enabled_defaults, normalize_policy, spread,
  replace, cli_fields, has_cli_overrides,
}

-- Step 2 of `resolveGlobalRetryPolicy`, where the command line has overrides at all.
abbrev pub with_no_retry : RetryCliOverrides → ResolvedRetryPolicy → ResolvedRetryPolicy
with_no_retry c base = record {
  enabled = false;
  policy = record {
    max_attempts = 1;
    delay_ms = base.policy.delay_ms;
    backoff = base.policy.backoff;
    max_delay_ms = base.policy.max_delay_ms;
    jitter = base.policy.jitter;
    disable_delay = replace c.disable_delay base.policy.disable_delay;
  };
  source = PolicySource.cli;
  disabled_by = some DisabledBy.cli;
}

abbrev pub starts_over : PolicySource → Bool
starts_over PolicySource.default = true
starts_over PolicySource.disabled = true
starts_over _ = false

abbrev pub with_overrides : RetryCliOverrides → ResolvedRetryPolicy → ResolvedRetryPolicy
with_overrides c base =
    let merge_base =
      if starts_over base.source then recommended_enabled_defaults else base.policy in
    let policy = normalize_policy (spread merge_base (cli_fields c)) in
    let enabled = ltb 1 policy.max_attempts in
    record {
      enabled = enabled;
      policy = policy;
      source = PolicySource.cli;
      disabled_by = if enabled then none else some DisabledBy.omitted;
    }

abbrev pub apply_cli_overrides :
    Option RetryCliOverrides → ResolvedRetryPolicy → ResolvedRetryPolicy
apply_cli_overrides none base = base
apply_cli_overrides (some c) base =
    if c.no_retry
    then with_no_retry c base
    else if has_cli_overrides c
    then with_overrides c base
    else base

unfoldable pub resolve_global_retry_policy :
    ConfigRetry → Option RetryCliOverrides → ResolvedRetryPolicy
resolve_global_retry_policy ConfigRetry.off cli = record {
  enabled = false;
  policy = built_in_default_policy;
  source = PolicySource.disabled;
  disabled_by = none;
}
resolve_global_retry_policy ConfigRetry.absent overrides = apply_cli_overrides overrides record {
  enabled = false;
  policy = built_in_default_policy;
  source = PolicySource.default;
  disabled_by = some DisabledBy.omitted;
}
resolve_global_retry_policy (ConfigRetry.resolved r) overrides =
    apply_cli_overrides overrides
      record { enabled = r.enabled; policy = r.policy; source = r.source; disabled_by = none }
resolve_global_retry_policy (ConfigRetry.input p) overrides =
    let policy = normalize_policy (spread recommended_enabled_defaults p) in
    apply_cli_overrides overrides record {
      enabled = ltb 1 policy.max_attempts;
      policy = policy;
      source = PolicySource.config;
      disabled_by = none;
    }

abbrev pub is_disabled : PolicySource → Bool
is_disabled PolicySource.disabled = true
is_disabled _ = false

abbrev pub agent_policy : ResolvedRetryPolicy → PolicyInput → ResolvedRetryPolicy
agent_policy global PolicyInput.absent = global
agent_policy global PolicyInput.off = record {
  enabled = false;
  policy = built_in_default_policy;
  source = PolicySource.disabled;
  disabled_by = some DisabledBy.agent;
}
agent_policy global (PolicyInput.input p) =
    let merge_base = if global.enabled then global.policy else recommended_enabled_defaults in
    let merged = normalize_policy (spread merge_base p) in
    let enabled = ltb 1 merged.max_attempts in
    record {
      enabled = enabled;
      policy = merged;
      source = PolicySource.agent;
      disabled_by = if enabled then none else some DisabledBy.agent;
    }

unfoldable pub resolve_agent_retry_policy : ResolvedRetryPolicy → PolicyInput → ResolvedRetryPolicy
resolve_agent_retry_policy global call =
    if is_disabled global.source
    then record {
      enabled = false;
      policy = global.policy;
      source = global.source;
      disabled_by = global.disabled_by;
    }
    else agent_policy global call
