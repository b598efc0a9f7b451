-- ===== src/RunLimits.antt =====
-- workflow/run-limits.ts, `RunLimitTracker`.
pub mod Laws
use open_dynamic_workflow.Base.{
  ℕ, zero, suc, ◌+◌, String, Bool, true, false, Option, none, some, leb, if◌then◌else◌, ◌==◌,
  String_eq, show, join,
}

pub record RunLimitTracker : Type 0 where
  pub max_agent_calls : Option ℕ
  pub agent_calls : ℕ
  pub exceeded : Bool
  pub message : Option String

-- `isPositiveInteger(x) ? x : undefined`, of a natural number.
abbrev positive : Option ℕ → Option ℕ
positive none = none
positive (some zero) = none
positive (some (suc n)) = some (suc n)

unfoldable pub new : Option ℕ → RunLimitTracker
new max = record {
  max_agent_calls = positive max;
  agent_calls = 0;
  exceeded = false;
  message = none;
}

-- The message of a refusal.
abbrev limit_message : String → ℕ → String
limit_message id max =
    join "Run limit exceeded before scheduling agent '"
      (join id (join "': maxAgentCalls " (join (show max) " has been reached.")))

-- `markExceeded`: the first refusal sets the flag and the message; later errors repeat it.
unfoldable pub mark_exceeded : String → RunLimitTracker → RunLimitTracker
mark_exceeded m s = if s.exceeded then s else record s { exceeded = true; message = some m }

-- `text || other`
abbrev pub or_text : Option String → String → String
or_text none m = m
or_text (some t) m = if t == "" then m else t

-- `beforeAgentSchedule`: the new state, and the message of the error if it throws.
unfoldable pub before_agent_schedule : String → RunLimitTracker → RunLimitTracker × Option String
unfolding mark_exceeded
before_agent_schedule id s = elim s.max_agent_calls [
  | none ↦ (s, none)
  | some max ↦
      if leb max s.agent_calls
      then (
        mark_exceeded (limit_message id max) s,
        some (or_text (mark_exceeded (limit_message id max) s).message (limit_message id max)),
      )
      else (record s { agent_calls = s.agent_calls + 1 }, none)
]
