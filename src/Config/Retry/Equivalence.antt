-- ===== src/Config/Retry/Equivalence.antt =====
-- The two resolutions of the retry policy agree.
use open_dynamic_workflow.Base.{
  ◌≡◌, refl, ap, ◌∙◌, sym, Bool, true, false, Option, none, some, if◌then◌else◌, if_intro, ltb,
  Bool-cases, inl, inr,
}
use open_dynamic_workflow.Retry.Delay.{RetryPolicy}
use open_dynamic_workflow.Config.Policies.{
  RetryCliOverrides, PolicySource, DisabledBy, ResolvedRetryPolicy, ConfigRetry, PolicyInput,
  spread, normalize_policy, has_cli_overrides, recommended_enabled_defaults,
}
use open_dynamic_workflow.Config.Retry.{
  resolve_global_retry_policy, resolve_agent_retry_policy, apply_cli_overrides, agent_policy,
  is_disabled,
}
use open_dynamic_workflow.Config.Retry.Selection.{Layers}
use open_dynamic_workflow.Config.Retry.Layers.{
  apply_input, apply_cli, global_layer, agent_layer, built_in_layer, LayeredInput, below_agent,
  resolve_layered_retry_policy,
}
use open_dynamic_workflow.Config.Retry.Agreement.{
  IsDefinite, effective, resolved_by, start, Agrees, Agrees-off, object-Agrees, apply_cli-Agrees,
}

-- The configuration's own value of the policy, not one that is resolved.
abbrev pub config_of : PolicyInput → ConfigRetry
config_of PolicyInput.absent = ConfigRetry.absent
config_of PolicyInput.off = ConfigRetry.off
config_of (PolicyInput.input p) = ConfigRetry.input p

-- A configuration that says nothing of retries, or has them on.
abbrev pub IsOpen : PolicyInput → Type 0
IsOpen PolicyInput.absent = Unit
IsOpen PolicyInput.off = ⊥
IsOpen (PolicyInput.input p) =
    IsDefinite p
    × (ltb 1 (normalize_policy (spread recommended_enabled_defaults p)).max_attempts ≡ true)

abbrev pub IsPlainInput : PolicyInput → Type 0
IsPlainInput (PolicyInput.input p) = IsDefinite p
IsPlainInput _ = Unit

abbrev global_layers : PolicyInput → Layers
global_layers config = apply_input global_layer DisabledBy.omitted config built_in_layer

cli-source :
    (cli : Option RetryCliOverrides) (g : ResolvedRetryPolicy)
    → is_disabled g.source ≡ false
    → is_disabled (apply_cli_overrides cli g).source ≡ false
cli-source none g h = h
cli-source (some c) g h =
    if_intro (λ (r : ResolvedRetryPolicy). is_disabled r.source ≡ false) c.no_retry refl
      (if_intro (λ (r : ResolvedRetryPolicy). is_disabled r.source ≡ false) (has_cli_overrides c)
        refl h)

start_enabled : (b : Bool) (p : RetryPolicy) → b ≡ true → start b p ≡ p
start_enabled b p h = rw h

resolve_global-Agrees :
    (config : PolicyInput) (cli : Option RetryCliOverrides)
    → IsOpen config
    → Agrees
        (resolve_global_retry_policy (config_of config) cli)
        (apply_cli cli (global_layers config))
      × (is_disabled (resolve_global_retry_policy (config_of config) cli).source ≡ false)
unfolding resolve_global_retry_policy
resolve_global-Agrees PolicyInput.absent cli o =
    (apply_cli-Agrees cli _ _ (Agrees-off _ _ refl refl) refl, cli-source cli _ refl)
resolve_global-Agrees PolicyInput.off cli o = absurd o
resolve_global-Agrees (PolicyInput.input p) cli (d, o) = (
  apply_cli-Agrees cli _ _
      (object-Agrees global_layer p built_in_layer _ PolicySource.config none d refl)
      (start_enabled _ _ o),
  cli-source cli _ refl,
)

agent_policy-Agrees :
    (g : ResolvedRetryPolicy) (s : Layers) (call : PolicyInput)
    → IsPlainInput call
    → Agrees g s
    → Agrees (agent_policy g call) (apply_input agent_layer DisabledBy.agent call s)
agent_policy-Agrees g s PolicyInput.absent d h = h
agent_policy-Agrees g s PolicyInput.off d h = Agrees-off _ _ refl refl
agent_policy-Agrees g s (PolicyInput.input p) d h =
    object-Agrees agent_layer p s _ PolicySource.agent _ d
      (ap (λ q. normalize_policy (spread q p)) h.base)

resolve_agent-Agrees :
    (g : ResolvedRetryPolicy) (s : Layers) (call : PolicyInput)
    → IsPlainInput call
    → is_disabled g.source ≡ false
    → Agrees g s
    → Agrees (resolve_agent_retry_policy g call) (apply_input agent_layer DisabledBy.agent call s)
unfolding resolve_agent_retry_policy
resolve_agent-Agrees g s call d e h = rw e (agent_policy-Agrees g s call d h)

effective-start :
    (r : ResolvedRetryPolicy)
    → effective r ≡ (if r.enabled then some (start r.enabled r.policy) else none)
effective-start r = elim (Bool-cases r.enabled) [ inl h ↦ rw h | inr h ↦ rw h ]

effective-Agrees :
    (g : ResolvedRetryPolicy) (s : Layers) → Agrees g s → effective (resolved_by s) ≡ effective g
effective-Agrees g s h =
    effective-start (resolved_by s)
    ∙ (λ i. if h.enabled i then some (h.base i) else none)
    ∙ sym (effective-start g)

abbrev pub layered : PolicyInput → Option RetryCliOverrides → PolicyInput → LayeredInput
layered config cli call = record {
  agent = call;
  alias = PolicyInput.absent;
  alias_provenance = none;
  cli = cli;
  global = config;
}

-- Where the configuration says nothing of retries or has more than one attempt, where no field of it or
-- of the call is there with the value undefined, and where the provider has no alias, the layers put in
-- force the same retry policy, or none as well, as the resolution for the run and then for the call.
pub resolve_layered-resolve_agent :
    (config : PolicyInput) (cli : Option RetryCliOverrides) (call : PolicyInput)
    → IsOpen config
    → IsPlainInput call
    → effective (resolve_layered_retry_policy (layered config cli call)).value
      ≡ effective
          (resolve_agent_retry_policy (resolve_global_retry_policy (config_of config) cli) call)
unfolding resolve_layered_retry_policy below_agent
resolve_layered-resolve_agent config cli call o d =
    let g = resolve_global-Agrees config cli o in
    effective-Agrees _ _
      (resolve_agent-Agrees _ (apply_cli cli (global_layers config)) call d g.1 g.0)
