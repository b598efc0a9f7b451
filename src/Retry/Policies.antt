-- ===== src/Retry/Policies.antt =====
-- What the classifier calls retryable, and how long the delays are.
use native.Mathlib.Nat.{mul-le-mul_left, mul-le-mul_right, pow-le-pow_right}
use open_dynamic_workflow.Base.{
  ℕ, ◌-◌, ◌*◌, ◌^◌, ◌≤◌, ◌<◌, ◌≡◌, refl, String, Bool, true, false, Option, none, some, List, [],
  ◌∷◌, ◌==◌, String_eq, if◌then◌else◌, All, lookup, leb, arith, if_intro,
}
use open_dynamic_workflow.Agent.{AgentStatus, AgentResult}
use open_dynamic_workflow.Retry.Classifier.{
  FailureReason, provider_error, process_error, malformed_output, schema_validation_failed,
  error_map, ThrownError, Classification, mapped, classify, classify_status, map_truthy, error_code,
  by_result, by_name, by_code, is_inherited, inherited_keys, truthy,
}
use open_dynamic_workflow.Retry.Delay.{
  RetryPolicy, fixed, exponential, unit_ms, raw_delay_ms, compute_retry_delay,
}

-- The reasons that a later attempt may overcome.
abbrev pub may_pass : FailureReason → Bool
may_pass provider_error = true
may_pass process_error = true
may_pass malformed_output = true
may_pass schema_validation_failed = true
may_pass _ = false

-- Retryable just if there is a reason that may pass.
abbrev pub retryable_as : Option FailureReason → Bool
retryable_as none = false
retryable_as (some reason) = may_pass reason

abbrev Agrees : String × (FailureReason × Bool) → Type 0
Agrees e = e.1.1 ≡ may_pass e.1.0

unfoldable Found : Option (FailureReason × Bool) → Type 0
Found none = Unit
Found (some v) = v.1 ≡ may_pass v.0

unfoldable Mapped : Option (Option FailureReason × Bool) → Type 0
Mapped none = Unit
Mapped (some v) = v.1 ≡ retryable_as v.0

lookup-Found :
    (key : String) (m : List (String × (FailureReason × Bool)))
    → All Agrees m
    → Found (lookup key m)
unfolding lookup Found
lookup-Found key [] h = tt
lookup-Found key ((i, found) ∷ m) h = if_intro Found (i == key) h.0 (lookup-Found key m h.1)

error_map-Agrees : All Agrees error_map
error_map-Agrees = ground arith

mapped-Mapped : (key : String) → Mapped (mapped key)
unfolding mapped Mapped Found
mapped-Mapped key = found (lookup key error_map) (lookup-Found key error_map error_map-Agrees)
  where
    found :
        (o : Option (FailureReason × Bool))
        → Found o
        → Mapped (elim o [
          | none ↦ if is_inherited key inherited_keys then some (none, false) else none
          | some (reason, retryable) ↦ some (some reason, retryable)
        ])
    found none h = if_intro Mapped (is_inherited key inherited_keys) refl tt
    found (some v) h = h

map_truthy-Mapped : (t : Option String) → Mapped (map_truthy t)
unfolding Mapped
map_truthy-Mapped t =
    elim (truthy t) as (λ k. Mapped (elim k [ none ↦ none | some key ↦ mapped key ])) [
      | none ↦ tt
      | some key ↦ mapped-Mapped key
    ]

classify_status_lem :
    (t : AgentStatus) (exit : Option ℕ) (code : Option String)
    → (classify_status t exit code).retryable ≡ retryable_as (classify_status t exit code).reason
classify_status_lem t exit code = ground arith

abbrev Sound : Classification → Type 0
Sound c = c.retryable ≡ retryable_as c.reason

module _ (r : AgentResult) (code name : Option String) where
  by_result_lem : Sound (by_result r code)
  by_result_lem = if_intro Sound r.ok refl (classify_status_lem r.status r.exit_code code)

  by_name_lem :
      (m : Option (Option FailureReason × Bool)) → Mapped m → Sound (by_name m r code name)
  unfolding Mapped
  by_name_lem none h = by_result_lem
  by_name_lem (some v) h = h

  by_code_lem :
      (m : Option (Option FailureReason × Bool)) → Mapped m → Sound (by_code m r code name)
  unfolding Mapped
  by_code_lem none h = by_name_lem (map_truthy name) (map_truthy-Mapped name)
  by_code_lem (some v) h = h

-- Whatever is classified, it is retryable just if the reason is a failure of the provider or of the
-- process, malformed output or a failed schema validation; in particular no timeout, cancellation,
-- refusal, policy violation or invalid input is retried.
pub classify-retryable :
    (thrown : Option ThrownError) (r : AgentResult)
    → (classify thrown r).retryable ≡ retryable_as (classify thrown r).reason
unfolding classify
classify-retryable thrown r =
    let (code, name) = error_code thrown r in
    by_code_lem r code name (map_truthy code) (map_truthy-Mapped code)

-- A success is not retryable.
classify-success : (r : AgentResult) → r.ok ≡ true → (classify none r).retryable ≡ false
unfolding classify
classify-success r h = ground (arith, h)

raw_delay_grows : (p : RetryPolicy) (m n : ℕ) → m ≤ n → raw_delay_ms p m ≤ raw_delay_ms p n
unfolding raw_delay_ms
raw_delay_grows p m n h =
    elim p.backoff
      as (λ b.
        elim b [ exponential ↦ p.delay_ms * 2 ^ (m - 1) | fixed ↦ p.delay_ms ]
        ≤ elim b [ exponential ↦ p.delay_ms * 2 ^ (n - 1) | fixed ↦ p.delay_ms ]) [
          | exponential ↦
              mul-le-mul_left p.delay_ms (pow-le-pow_right (omega arith) (omega (arith, h)))
          | fixed ↦ omega arith
        ]

-- What the cap leaves of a delay.
abbrev capped : ℕ → ℕ → ℕ
capped cap d = if leb cap d then cap else d

capped_grows : (cap d e : ℕ) → d ≤ e → (capped cap d ≤ capped cap e) × (capped cap e ≤ cap)
capped_grows cap d e h = (ground (arith, h), ground (arith, h))

-- The delay before the cap.
abbrev scaled : Bool → ℕ → ℕ → ℕ
scaled jittered random raw = if jittered then random * raw else unit_ms * raw

scaled_grows :
    (jittered : Bool) (random x y : ℕ)
    → x ≤ y
    → random < unit_ms
    → (scaled jittered random x ≤ scaled jittered random y)
      × (scaled jittered random y ≤ unit_ms * y)
scaled_grows true random x y h lt =
    (mul-le-mul_left random h, mul-le-mul_right y (omega (arith, lt)))
scaled_grows false random x y h lt = (mul-le-mul_left unit_ms h, omega arith)

-- With the same random number, a multiple of 2⁻⁵³ below 1, later attempts wait no shorter; no delay
-- exceeds the policy's bound, and jitter never lengthens one.
pub compute_retry_delay-grows :
    (p : RetryPolicy) (m n random : ℕ)
    → m ≤ n
    → random < unit_ms
    → let d = (compute_retry_delay p n random).delay in
      ((compute_retry_delay p m random).delay ≤ d)
      × ((d ≤ p.max_delay_ms * unit_ms)
          × (d ≤ (compute_retry_delay (record p { jitter = false }) n random).delay))
unfolding compute_retry_delay raw_delay_ms
compute_retry_delay-grows p m n random h lt =
    let cap = p.max_delay_ms * unit_ms in
    let s =
      scaled_grows p.jitter random (raw_delay_ms p m) (raw_delay_ms p n) (raw_delay_grows p m n h)
        lt in
    let c = capped_grows cap _ _ s.0 in (c.0, (c.1, (capped_grows cap _ _ s.1).0))
