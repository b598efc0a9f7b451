-- ===== src/Config/Retry/Agreement.antt =====
-- The two resolutions of the retry policy, over the configuration, the command line and the call: in two
-- steps, and by layers.
use open_dynamic_workflow.Base.{
  ◌≡◌, refl, ap, ◌∙◌, sym, Bool, true, false, not, Option, none, some, if◌then◌else◌, ltb,
}
use open_dynamic_workflow.Retry.Delay.{RetryPolicy}
use open_dynamic_workflow.Config.Policies.{
  Given, omitted, undefined, value, PartialPolicy, RetryCliOverrides, PolicySource, DisabledBy,
  ResolvedRetryPolicy, given, or_else, spread_field, spread, normalize_policy, cli_fields,
  has_cli_overrides, built_in_default_policy, recommended_enabled_defaults,
}
use open_dynamic_workflow.Config.Retry.{apply_cli_overrides, starts_over}
use open_dynamic_workflow.Config.Retry.Selection.{Cell, PolicyField, Layers, selection}
use open_dynamic_workflow.Config.Retry.Layers.{
  ObjectLayer, seed_cell, apply_field, apply_object_layer, apply_cli, keep_no_delay, cli_layer,
}

abbrev pub is_undefined {ℓ} : {A : Type ℓ} → Given A → Bool
is_undefined undefined = true
is_undefined _ = false

-- No field is there with the value undefined.
abbrev pub IsDefinite : PartialPolicy → Type 0
IsDefinite p =
    (is_undefined p.max_attempts ≡ false)
    × (is_undefined p.delay_ms ≡ false)
    × (is_undefined p.backoff ≡ false)
    × (is_undefined p.max_delay_ms ≡ false)
    × (is_undefined p.jitter ≡ false)
    × (is_undefined p.disable_delay ≡ false)

-- The policy that is in force, if any is.
abbrev pub effective : ResolvedRetryPolicy → Option RetryPolicy
effective r = if r.enabled then some r.policy else none

abbrev pub resolved_by : Layers → ResolvedRetryPolicy
resolved_by s = (selection s).value

-- Where a policy that is merged over starts.
abbrev pub start : Bool → RetryPolicy → RetryPolicy
start enabled p = if enabled then p else recommended_enabled_defaults

module _ {ℓ} {A : Type ℓ} (l : ObjectLayer) (f : PolicyField) (field : RetryPolicy → A)
    (p : RetryPolicy) where
  seed_cell-start :
      (enabled : Bool) (c : Cell A)
      → c.current ≡ field p
      → (seed_cell l f (not enabled) (field recommended_enabled_defaults) c).current
        ≡ field (start enabled p)
  seed_cell-start true c h = h
  seed_cell-start false c h = refl

  apply_field-spread :
      (enabled : Bool) (d : A) (g : Given A) (c : Cell A)
      → c.current ≡ field p
      → is_undefined g ≡ false
      → (apply_field l f (not enabled) (field recommended_enabled_defaults) g c).current
        ≡ or_else (spread_field (field (start enabled p)) g) d
  apply_field-spread enabled d omitted c e h = seed_cell-start enabled c e
  apply_field-spread enabled d undefined c e h = cc
  apply_field-spread enabled d (value v) c e h = refl

-- A layer that is an object merges as the two steps do.
apply_object_layer-policy :
    (l : ObjectLayer) (p : PartialPolicy) (s : Layers)
    → IsDefinite p
    → (resolved_by (apply_object_layer l p s)).policy
      ≡ normalize_policy (spread (start s.enabled (resolved_by s).policy) p)
unfolding apply_object_layer
apply_object_layer-policy l p s (a, b, c, d, e, f) =
    let q = (resolved_by s).policy in
    λ i. record {
      max_attempts =
          apply_field-spread l PolicyField.max_attempts (λ r. r.max_attempts) q s.enabled
            built_in_default_policy.max_attempts p.max_attempts s.attempts refl a i;
      delay_ms =
          apply_field-spread l PolicyField.delay_ms (λ r. r.delay_ms) q s.enabled
            built_in_default_policy.delay_ms p.delay_ms s.delay refl b i;
      backoff =
          apply_field-spread l PolicyField.backoff (λ r. r.backoff) q s.enabled
            built_in_default_policy.backoff p.backoff s.growth refl c i;
      max_delay_ms =
          apply_field-spread l PolicyField.max_delay_ms (λ r. r.max_delay_ms) q s.enabled
            built_in_default_policy.max_delay_ms p.max_delay_ms s.max_delay refl d i;
      jitter =
          apply_field-spread l PolicyField.jitter (λ r. r.jitter) q s.enabled
            built_in_default_policy.jitter p.jitter s.jittered refl e i;
      disable_delay =
          apply_field-spread l PolicyField.disable_delay (λ r. r.disable_delay) q s.enabled
            built_in_default_policy.disable_delay p.disable_delay s.no_delay refl f i;
    }

-- Both have retries off, or both have them on with the same policy.
pub record Agrees (g : ResolvedRetryPolicy) (s : Layers) : Type 0 where
  pub enabled : s.enabled ≡ g.enabled
  pub base : start s.enabled (resolved_by s).policy ≡ start g.enabled g.policy

pub Agrees-off :
    (g : ResolvedRetryPolicy) (s : Layers) → s.enabled ≡ false → g.enabled ≡ false → Agrees g s
Agrees-off g s h k = record {
  enabled = h ∙ sym k;
  base = ap (λ b. start b (resolved_by s).policy) h ∙ sym (ap (λ b. start b g.policy) k);
}

if_both {ℓ κ} :
    {A : Type ℓ} {B : Type κ} (P : A → B → Type 0) (b : Bool) {x x' : A} {y y' : B}
    → P x y
    → P x' y'
    → P (if b then x else x') (if b then y else y')
if_both P true p q = p
if_both P false p q = q

-- A merge in both.
abbrev pub merge_policy : Bool → RetryPolicy → PartialPolicy → RetryPolicy
merge_policy enabled base p = normalize_policy (spread (start enabled base) p)

pub object-Agrees :
    (l : ObjectLayer) (p : PartialPolicy) (s : Layers) (m : RetryPolicy) (source : PolicySource)
    (reason : Option DisabledBy)
    → IsDefinite p
    → merge_policy s.enabled (resolved_by s).policy p ≡ m
    → Agrees
        (record {
          enabled = ltb 1 m.max_attempts;
          policy = m;
          source = source;
          disabled_by = reason;
        })
        (apply_object_layer l p s)
unfolding apply_object_layer
object-Agrees l p s m source reason d h =
    let same = apply_object_layer-policy l p s d ∙ h in
    record {
      enabled = ap (λ q. ltb 1 q.max_attempts) same;
      base = λ i. start (ltb 1 (same i).max_attempts) (same i);
    }

given-IsDefinite {ℓ} : {A : Type ℓ} (x : Option A) → is_undefined (given x) ≡ false
given-IsDefinite none = refl
given-IsDefinite (some x) = refl

cli_fields-IsDefinite : (c : RetryCliOverrides) → IsDefinite (cli_fields c)
cli_fields-IsDefinite c = (
  given-IsDefinite c.max_attempts,
  given-IsDefinite c.delay_ms,
  given-IsDefinite c.backoff,
  given-IsDefinite c.max_delay_ms,
  refl,
  given-IsDefinite c.disable_delay,
)

keep_no_delay-enabled : (d : Option Bool) (s : Layers) → (keep_no_delay d s).enabled ≡ s.enabled
keep_no_delay-enabled none s = refl
keep_no_delay-enabled (some b) s = refl

pub apply_cli-Agrees :
    (cli : Option RetryCliOverrides) (g : ResolvedRetryPolicy) (s : Layers)
    → Agrees g s
    → start g.enabled g.policy
      ≡ (if starts_over g.source then recommended_enabled_defaults else g.policy)
    → Agrees (apply_cli_overrides cli g) (apply_cli cli s)
apply_cli-Agrees none g s h k = h
apply_cli-Agrees (some c) g s h k =
    if_both Agrees c.no_retry (Agrees-off _ _ (keep_no_delay-enabled c.disable_delay _) refl) (
      if_both Agrees (has_cli_overrides c)
        (object-Agrees (cli_layer c) (cli_fields c) s _ PolicySource.cli _ (cli_fields-IsDefinite c)
          (ap (λ q. normalize_policy (spread q (cli_fields c))) (h.base ∙ k)))
        h)
