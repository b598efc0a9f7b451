-- ===== src/Config/Retry/Examples.antt =====
-- The resolutions of the retry policy at concrete settings.
use open_dynamic_workflow.Base.{◌≡◌, refl, true, false, Option, none, some}
use open_dynamic_workflow.Retry.Delay.{fixed}
use open_dynamic_workflow.Config.Policies.{
  omitted, undefined, value, PartialPolicy, RetryCliOverrides, ConfigRetry, PolicyInput,
}
use open_dynamic_workflow.Config.Retry.{resolve_global_retry_policy, resolve_agent_retry_policy}
use open_dynamic_workflow.Config.Retry.Layers.{
  resolve_layered_retry_policy, below_agent, apply_object_layer,
}
use open_dynamic_workflow.Config.Retry.Laws.{IsConsistent, resolve_layered-IsConsistent}
use open_dynamic_workflow.Config.Retry.Agreement.{effective}
use open_dynamic_workflow.Config.Retry.Equivalence.{
  config_of, layered, resolve_layered-resolve_agent,
}

abbrev nothing : PartialPolicy
nothing = record {
  max_attempts = omitted;
  delay_ms = omitted;
  backoff = omitted;
  max_delay_ms = omitted;
  jitter = omitted;
  disable_delay = omitted;
}

abbrev four_attempts : PolicyInput
four_attempts = PolicyInput.input record {
  max_attempts = value 4;
  delay_ms = value 20;
  backoff = omitted;
  max_delay_ms = omitted;
  jitter = omitted;
  disable_delay = omitted;
}

abbrev one_attempt : PolicyInput
one_attempt = PolicyInput.input record {
  max_attempts = value 1;
  delay_ms = value 20;
  backoff = omitted;
  max_delay_ms = omitted;
  jitter = omitted;
  disable_delay = omitted;
}

abbrev with_undefined : PolicyInput
with_undefined = PolicyInput.input record {
  max_attempts = undefined;
  delay_ms = omitted;
  backoff = omitted;
  max_delay_ms = omitted;
  jitter = omitted;
  disable_delay = omitted;
}

abbrev fixed_delay : PolicyInput
fixed_delay = PolicyInput.input record {
  max_attempts = omitted;
  delay_ms = omitted;
  backoff = value fixed;
  max_delay_ms = omitted;
  jitter = omitted;
  disable_delay = omitted;
}

abbrev shorter : Option RetryCliOverrides
shorter = some record {
  max_attempts = none;
  delay_ms = some 5;
  max_delay_ms = none;
  backoff = none;
  disable_delay = none;
  no_retry = false;
}

resolutions : Unit {0}
unfolding resolve_global_retry_policy resolve_agent_retry_policy resolve_layered_retry_policy
    below_agent apply_object_layer
resolutions = tt
  where
    all_given :
        effective (resolve_layered_retry_policy (layered four_attempts shorter fixed_delay)).value
        ≡ some record {
          max_attempts = 4;
          delay_ms = 5;
          backoff = fixed;
          max_delay_ms = 30000;
          jitter = true;
          disable_delay = false;
        }
    all_given = refl

    -- Where the configuration has retries off, the call turns them on by layers only.
    off_by_steps :
        (resolve_agent_retry_policy
          (resolve_global_retry_policy ConfigRetry.off none)
          four_attempts).enabled
        ≡ false
    off_by_steps = refl

    off_by_layers :
        (resolve_layered_retry_policy (layered PolicyInput.off none four_attempts)).value.enabled
        ≡ true
    off_by_layers = refl

    -- So it does where it has one attempt, and the command line has another delay.
    one_by_steps :
        (resolve_agent_retry_policy
          (resolve_global_retry_policy (config_of one_attempt) shorter)
          PolicyInput.absent).enabled
        ≡ false
    one_by_steps = refl

    one_by_layers :
        (resolve_layered_retry_policy
          (layered one_attempt shorter PolicyInput.absent)).value.enabled
        ≡ true
    one_by_layers = refl

    -- A field that is there with the value undefined is one attempt in steps, and three by layers.
    undefined_by_steps :
        (resolve_agent_retry_policy
          (resolve_global_retry_policy (config_of with_undefined) none)
          PolicyInput.absent).enabled
        ≡ false
    undefined_by_steps = refl

    undefined_by_layers :
        (resolve_layered_retry_policy
          (layered with_undefined none PolicyInput.absent)).value.enabled
        ≡ true
    undefined_by_layers = refl

resolve_layered-IsConsistent_example :
    IsConsistent (resolve_layered_retry_policy (layered one_attempt shorter fixed_delay))
resolve_layered-IsConsistent_example =
    resolve_layered-IsConsistent (layered one_attempt shorter fixed_delay)

resolve_layered-resolve_agent_example :
    effective (resolve_layered_retry_policy (layered four_attempts shorter fixed_delay)).value
    ≡ effective (
        resolve_agent_retry_policy
          (resolve_global_retry_policy (config_of four_attempts) shorter)
          fixed_delay)
resolve_layered-resolve_agent_example =
    resolve_layered-resolve_agent four_attempts shorter fixed_delay
      ((refl, refl, refl, refl, refl, refl), refl) (refl, refl, refl, refl, refl, refl)
