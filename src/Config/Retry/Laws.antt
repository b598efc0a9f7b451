-- ===== src/Config/Retry/Laws.antt =====
-- What holds of the retry policy that the layers give, whatever they are.
use open_dynamic_workflow.Base.{
  String, ◌≡◌, refl, Bool, true, false, not, Option, none, some, if◌then◌else◌, if_intro, ltb,
}
use open_dynamic_workflow.Config.Policies.{
  Given, omitted, undefined, value, PartialPolicy, RetryCliOverrides, DisabledBy, PolicyInput,
  is_given, cli_fields, has_cli_overrides, recommended_enabled_defaults,
}
use open_dynamic_workflow.Config.Retry.Selection.{
  ProviderSettingSource, Cell, PolicyField, Layers, ResolvedRetrySelection, selection,
}
use open_dynamic_workflow.Config.Retry.Layers.{
  ObjectLayer, apply_field, apply_object_layer, apply_disable_layer, apply_input, apply_cli,
  keep_no_delay, cli_layer, alias_layer, global_layer, agent_layer, built_in_layer, LayeredInput,
  below_agent, resolve_layered_retry_policy,
}

-- Enabled just where there is more than one attempt, disabled for a reason just where it is not enabled,
-- and with the value of each field where its source says it is.
pub record IsConsistent (r : ResolvedRetrySelection) : Type 0 where
  pub enabled : r.value.enabled ≡ ltb 1 r.value.policy.max_attempts
  pub reason : is_given r.value.disabled_by ≡ not r.value.enabled
  pub max_attempts : r.field_sources.max_attempts.value ≡ r.value.policy.max_attempts
  pub delay_ms : r.field_sources.delay_ms.value ≡ r.value.policy.delay_ms
  pub backoff : r.field_sources.backoff.value ≡ r.value.policy.backoff
  pub max_delay_ms : r.field_sources.max_delay_ms.value ≡ r.value.policy.max_delay_ms
  pub jitter : r.field_sources.jitter.value ≡ r.value.policy.jitter
  pub disable_delay : r.field_sources.disable_delay.value ≡ r.value.policy.disable_delay

abbrev Sound : Layers → Type 0
Sound s = IsConsistent (selection s)

apply_field-setting {ℓ} :
    {A : Type ℓ} (l : ObjectLayer) (f : PolicyField) (seed : Bool) (r : A) (g : Given A)
    (c : Cell A)
    → c.setting.value ≡ c.current
    → (apply_field l f seed r g c).setting.value ≡ (apply_field l f seed r g c).current
apply_field-setting l f seed r omitted c h =
    if_intro (λ (c : Cell _). c.setting.value ≡ c.current) seed refl h
apply_field-setting l f seed r undefined c h =
    if_intro (λ (c : Cell _). c.setting.value ≡ c.current) seed refl h
apply_field-setting l f seed r (value v) c h = refl

reason_given : {A : Type 0} (b : Bool) (x : A) → is_given (if b then none else some x) ≡ not b
reason_given true x = refl
reason_given false x = refl

apply_object_layer-Sound :
    (l : ObjectLayer) (p : PartialPolicy) (s : Layers) → Sound s → Sound (apply_object_layer l p s)
unfolding apply_object_layer
apply_object_layer-Sound l p s h = record {
  enabled = refl;
  reason = reason_given _ _;
  max_attempts =
      apply_field-setting l PolicyField.max_attempts (not s.enabled)
        recommended_enabled_defaults.max_attempts p.max_attempts s.attempts h.max_attempts;
  delay_ms =
      apply_field-setting l PolicyField.delay_ms (not s.enabled)
        recommended_enabled_defaults.delay_ms p.delay_ms s.delay h.delay_ms;
  backoff =
      apply_field-setting l PolicyField.backoff (not s.enabled) recommended_enabled_defaults.backoff
        p.backoff s.growth h.backoff;
  max_delay_ms =
      apply_field-setting l PolicyField.max_delay_ms (not s.enabled)
        recommended_enabled_defaults.max_delay_ms p.max_delay_ms s.max_delay h.max_delay_ms;
  jitter =
      apply_field-setting l PolicyField.jitter (not s.enabled) recommended_enabled_defaults.jitter
        p.jitter s.jittered h.jitter;
  disable_delay =
      apply_field-setting l PolicyField.disable_delay (not s.enabled)
        recommended_enabled_defaults.disable_delay p.disable_delay s.no_delay h.disable_delay;
}

-- All fields as one policy says, with at most one attempt.
layers-Sound :
    (source : ProviderSettingSource) (path : String) (reason : DisabledBy)
    → Sound (apply_disable_layer source path reason)
layers-Sound source path reason = record {
  enabled = refl;
  reason = refl;
  max_attempts = refl;
  delay_ms = refl;
  backoff = refl;
  max_delay_ms = refl;
  jitter = refl;
  disable_delay = refl;
}

apply_input-Sound :
    (l : ObjectLayer) (reason : DisabledBy) (i : PolicyInput) (s : Layers)
    → Sound s
    → Sound (apply_input l reason i s)
apply_input-Sound l reason PolicyInput.absent s h = h
apply_input-Sound l reason PolicyInput.off s h = layers-Sound l.source l.policy_path reason
apply_input-Sound l reason (PolicyInput.input p) s h = apply_object_layer-Sound l p s h

keep_no_delay-Sound : (d : Option Bool) (s : Layers) → Sound s → Sound (keep_no_delay d s)
keep_no_delay-Sound none s h = h
keep_no_delay-Sound (some b) s h = record {
  enabled = h.enabled;
  reason = h.reason;
  max_attempts = h.max_attempts;
  delay_ms = h.delay_ms;
  backoff = h.backoff;
  max_delay_ms = h.max_delay_ms;
  jitter = h.jitter;
  disable_delay = refl;
}

apply_cli-Sound : (c : Option RetryCliOverrides) (s : Layers) → Sound s → Sound (apply_cli c s)
apply_cli-Sound none s h = h
apply_cli-Sound (some c) s h =
    if_intro Sound c.no_retry
      (keep_no_delay-Sound c.disable_delay _
        (layers-Sound ProviderSettingSource.cli "cli.noRetry" DisabledBy.cli))
      (if_intro Sound (has_cli_overrides c)
        (apply_object_layer-Sound (cli_layer c) (cli_fields c) s h) h)

-- Whatever the layers say, the resolved policy is enabled just where it has more than one attempt, a
-- reason stands with it just where it is not enabled, and each field has the value that its source
-- records.
pub resolve_layered-IsConsistent :
    (i : LayeredInput) → IsConsistent (resolve_layered_retry_policy i)
unfolding resolve_layered_retry_policy below_agent
resolve_layered-IsConsistent i = apply_input-Sound agent_layer DisabledBy.agent i.agent _ (
    apply_input-Sound (alias_layer i.alias_provenance) DisabledBy.omitted i.alias _ (
      apply_cli-Sound i.cli _ (
        apply_input-Sound global_layer DisabledBy.omitted i.global built_in_layer
          (layers-Sound ProviderSettingSource.built_in "builtIn.retry" DisabledBy.omitted))))
