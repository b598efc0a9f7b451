-- ===== src/Retry/Delay.antt =====
-- agents/retry-delay.ts, `computeRetryDelay`. Delays are counted in units of 2⁻⁵³ ms, so that the
-- product with a random number, a multiple of 2⁻⁵³ below 1, is exact; rounding is left out.
use open_dynamic_workflow.Base.{ℕ, ◌-◌, ◌*◌, ◌^◌, Bool, if◌then◌else◌, leb}

pub data Backoff : Type 0 where
  fixed exponential : Backoff

pub record RetryPolicy : Type 0 where
  pub max_attempts : ℕ
  pub delay_ms : ℕ
  pub backoff : Backoff
  pub max_delay_ms : ℕ
  pub jitter : Bool
  pub disable_delay : Bool

pub record RetryDelay : Type 0 where
  pub delay : ℕ
  pub raw_delay : ℕ
  pub jitter_applied : Bool

-- Units in a millisecond.
abbrev pub unit_ms : ℕ
unit_ms = 2 ^ 53

-- `rawDelayMs`
unfoldable pub raw_delay_ms : RetryPolicy → ℕ → ℕ
raw_delay_ms p attempt = elim p.backoff [
  | exponential ↦ p.delay_ms * 2 ^ (attempt - 1)
  | fixed ↦ p.delay_ms
]

-- `rng()` is `random` units.
unfoldable pub compute_retry_delay : RetryPolicy → ℕ → ℕ → RetryDelay
unfolding raw_delay_ms
compute_retry_delay p attempt random =
    let raw = raw_delay_ms p attempt in
    let delay = if p.jitter then random * raw else unit_ms * raw in
    let cap = p.max_delay_ms * unit_ms in
    record {
      delay = if leb cap delay then cap else delay;
      raw_delay = raw;
      jitter_applied = p.jitter;
    }
