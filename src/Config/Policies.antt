-- ===== src/Config/Policies.antt =====
-- Retry policies as config/retry.ts and types/retry.ts have them: in full, in part, resolved. Numbers are
-- those that the validation of the configuration lets through, whole and not negative.
use open_dynamic_workflow.Base.{ℕ, Bool, true, false, ◌||◌, Option, none, some}
use open_dynamic_workflow.Retry.Delay.{RetryPolicy, Backoff, exponential}

-- A field of a partial policy: not there, there as undefined, or with a value.
pub data Given {ℓ} (A : Type ℓ) : Type ℓ where
  omitted undefined : Given A
  value : A → Given A

-- `Partial<RetryPolicy>`
pub record PartialPolicy : Type 0 where
  pub max_attempts : Given ℕ
  pub delay_ms : Given ℕ
  pub backoff : Given Backoff
  pub max_delay_ms : Given ℕ
  pub jitter : Given Bool
  pub disable_delay : Given Bool

pub record RetryCliOverrides : Type 0 where
  pub max_attempts : Option ℕ
  pub delay_ms : Option ℕ
  pub max_delay_ms : Option ℕ
  pub backoff : Option Backoff
  pub disable_delay : Option Bool
  pub no_retry : Bool

-- The sources of a policy, with those that only the layered resolution gives.
pub data PolicySource : Type 0 where
  default config cli agent disabled provider_alias global_config built_in provider_config :
      PolicySource

pub data DisabledBy : Type 0 where
  omitted cli agent : DisabledBy

pub record ResolvedRetryPolicy : Type 0 where
  pub enabled : Bool
  pub policy : RetryPolicy
  pub source : PolicySource
  pub disabled_by : Option DisabledBy

-- `false | RetryConfigInput | ResolvedRetryPolicy | undefined`
pub data ConfigRetry : Type 0 where
  absent off : ConfigRetry
  resolved : ResolvedRetryPolicy → ConfigRetry
  input : PartialPolicy → ConfigRetry

-- `RetryPolicyInput | undefined`
pub data PolicyInput : Type 0 where
  absent off : PolicyInput
  input : PartialPolicy → PolicyInput

abbrev pub built_in_default_policy : RetryPolicy
built_in_default_policy = record {
  max_attempts = 1;
  delay_ms = 1000;
  backoff = exponential;
  max_delay_ms = 30000;
  jitter = true;
  disable_delay = false;
}

abbrev pub recommended_enabled_defaults : RetryPolicy
recommended_enabled_defaults = record {
  max_attempts = 3;
  delay_ms = 1000;
  backoff = exponential;
  max_delay_ms = 30000;
  jitter = true;
  disable_delay = false;
}

-- `??`
abbrev pub or_else {ℓ} : {A : Type ℓ} → Given A → A → A
or_else (value x) d = x
or_else _ d = d

abbrev pub normalize_policy : PartialPolicy → RetryPolicy
normalize_policy p = record {
  max_attempts = or_else p.max_attempts 1;
  delay_ms = or_else p.delay_ms 1000;
  backoff = or_else p.backoff exponential;
  max_delay_ms = or_else p.max_delay_ms 30000;
  jitter = or_else p.jitter true;
  disable_delay = or_else p.disable_delay false;
}

-- A field of `{ ...base, ...over }`.
abbrev pub spread_field {ℓ} : {A : Type ℓ} → A → Given A → Given A
spread_field base omitted = value base
spread_field base undefined = undefined
spread_field base (value x) = value x

abbrev pub spread : RetryPolicy → PartialPolicy → PartialPolicy
spread base over = record {
  max_attempts = spread_field base.max_attempts over.max_attempts;
  delay_ms = spread_field base.delay_ms over.delay_ms;
  backoff = spread_field base.backoff over.backoff;
  max_delay_ms = spread_field base.max_delay_ms over.max_delay_ms;
  jitter = spread_field base.jitter over.jitter;
  disable_delay = spread_field base.disable_delay over.disable_delay;
}

-- `x !== undefined`
abbrev pub is_given {ℓ} : {A : Type ℓ} → Option A → Bool
is_given none = false
is_given (some x) = true

-- `...(x !== undefined ? { field: x } : {})`
abbrev pub given {ℓ} : {A : Type ℓ} → Option A → Given A
given none = omitted
given (some x) = value x

abbrev pub has_cli_overrides : RetryCliOverrides → Bool
has_cli_overrides c =
    is_given c.max_attempts
    || is_given c.delay_ms
    || is_given c.max_delay_ms
    || is_given c.backoff
    || is_given c.disable_delay

-- The fields that the command line overrides.
abbrev pub cli_fields : RetryCliOverrides → PartialPolicy
cli_fields c = record {
  max_attempts = given c.max_attempts;
  delay_ms = given c.delay_ms;
  backoff = given c.backoff;
  max_delay_ms = given c.max_delay_ms;
  jitter = omitted;
  disable_delay = given c.disable_delay;
}

abbrev pub replace {ℓ} : {A : Type ℓ} → Option A → A → A
replace none x = x
replace (some y) x = y
