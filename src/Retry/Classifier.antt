-- ===== src/Retry/Classifier.antt =====
-- agents/attempt-classifier.ts, `classifyAttemptFailure`. Its message, which nothing reads, is left
-- out.
use open_dynamic_workflow.Base.{
  ℕ, String, String_eq, ◌==◌, Bool, true, false, not, ◌||◌, Option, none, some, List, [], ◌∷◌,
  if◌then◌else◌, lookup, nat_eq,
}
use open_dynamic_workflow.Agent.{AgentStatus, timed_out, cancelled, skipped, AgentResult}

-- `InternalAttemptFailureReason`
pub data FailureReason : Type 0 where
  provider_error process_error timeout malformed_output schema_validation_failed cancel
        security_policy_violation invalid_configuration invalid_workflow run_limit_exceeded
        unknown :
      FailureReason

-- `errorMap`
abbrev pub error_map : List (String × (FailureReason × Bool))
error_map =
    ("RUN_LIMIT_EXCEEDED", (run_limit_exceeded, false))
    ∷ ("SECURITY_POLICY_VIOLATION", (security_policy_violation, false))
    ∷ ("SHARED_AGENT_SECURITY_POLICY_VIOLATION", (security_policy_violation, false))
    ∷ ("USER_CANCELLED", (cancel, false))
    ∷ ("WORKFLOW_CANCELLED", (cancel, false))
    ∷ ("TOOL_CANCELLED", (cancel, false))
    ∷ ("PROCESS_TIMEOUT", (timeout, false))
    ∷ ("WORKFLOW_TIMEOUT", (timeout, false))
    ∷ ("TOOL_TIMEOUT", (timeout, false))
    ∷ ("CLI_USAGE_ERROR", (invalid_configuration, false))
    ∷ ("CONFIG_VALIDATION_ERROR", (invalid_configuration, false))
    ∷ ("MODEL_CONFIG_INVALID", (invalid_configuration, false))
    ∷ ("MODEL_NOT_SUPPORTED", (invalid_configuration, false))
    ∷ ("UNSUPPORTED_CAPABILITY", (invalid_configuration, false))
    ∷ ("THINKING_EFFORT_NOT_SUPPORTED", (invalid_configuration, false))
    ∷ ("THINKING_EFFORT_VALUE_UNSUPPORTED", (invalid_configuration, false))
    ∷ ("THINKING_EFFORT_CONFLICT", (invalid_configuration, false))
    ∷ ("RETRY_INVALID_CONFIG", (invalid_configuration, false))
    ∷ ("RETRY_INVALID_POLICY", (invalid_configuration, false))
    ∷ ("WORKFLOW_PARSE_ERROR", (invalid_workflow, false))
    ∷ ("WORKFLOW_VALIDATION_ERROR", (invalid_workflow, false))
    ∷ ("WORKFLOW_INVALID_CALL", (invalid_workflow, false))
    ∷ ("WORKFLOW_INPUT_VALIDATION_FAILED", (invalid_workflow, false))
    ∷ ("WORKFLOW_RECURSION_DETECTED", (invalid_workflow, false))
    ∷ ("WORKFLOW_MAX_DEPTH_EXCEEDED", (invalid_workflow, false))
    ∷ ("SCHEMA_VALIDATION_FAILED", (schema_validation_failed, true))
    ∷ ("ValidationError", (schema_validation_failed, true))
    ∷ ("PARSE_ERROR", (malformed_output, true))
    ∷ ("ParseError", (malformed_output, true))
    ∷ ("PROVIDER_UNAVAILABLE", (provider_error, true))
    ∷ ("PROVIDER_PROCESS_FAILED", (provider_error, true))
    ∷ ("ProviderProcessFailed", (provider_error, true))
    ∷ ("PROCESS_SPAWN_FAILED", (process_error, true))
    ∷ ("PROCESS_ERROR", (process_error, true))
    ∷ []

pub record Classification : Type 0 where
  pub reason : Option FailureReason
  pub retryable : Bool
  pub code : Option String

-- What `thrownError` may be: an object with its code, message and name, or another value.
pub data ThrownError : Type 0 where
  object : (code name : Option String) → ThrownError
  primitive : ThrownError

-- A text in a condition or before `||`: the empty one counts as none.
abbrev pub truthy : Option String → Option String
truthy none = none
truthy (some t) = if t == "" then none else some t

abbrev pub or_default : Option String → String → Option String
or_default code d = elim (truthy code) [ none ↦ some d | some t ↦ some t ]

-- The keys that every object inherits: `errorMap[key]` is then a function, without `reason`.
abbrev pub inherited_keys : List String
inherited_keys =
    "constructor" ∷ "toString" ∷ "toLocaleString" ∷ "valueOf" ∷ "hasOwnProperty" ∷ "isPrototypeOf"
    ∷ "propertyIsEnumerable" ∷ "__proto__" ∷ "__defineGetter__" ∷ "__defineSetter__"
    ∷ "__lookupGetter__" ∷ "__lookupSetter__" ∷ []

unfoldable pub is_inherited : String → List String → Bool
is_inherited key [] = false
is_inherited key (k ∷ ks) = k == key || is_inherited key ks

-- `errorMap[key]`: none if undefined.
unfoldable pub mapped : String → Option (Option FailureReason × Bool)
unfolding lookup is_inherited
mapped key = elim (lookup key error_map) [
  | none ↦ if is_inherited key inherited_keys then some (none, false) else none
  | some (reason, retryable) ↦ some (some reason, retryable)
]

-- `code` and `name` as the first part of the function extracts them.
abbrev pub error_code : Option ThrownError → AgentResult → Option String × Option String
error_code (some (object code name)) r = (code, name)
error_code (some primitive) r = (none, none)
error_code none r =
    if r.ok
    then (none, none)
    else elim r.error [ none ↦ (none, none) | some e ↦ (e.code, some e.name) ]

-- `exitCode !== null && exitCode !== 0`
abbrev pub exited_badly : Option ℕ → Bool
exited_badly none = false
exited_badly (some c) = not (nat_eq c 0)

-- The checks of the result's status, for an error that no code or name classifies.
abbrev pub classify_status : AgentStatus → Option ℕ → Option String → Classification
classify_status timed_out exit code = record {
  reason = some timeout;
  retryable = false;
  code = or_default code "PROCESS_TIMEOUT";
}
classify_status cancelled exit code = record {
  reason = some cancel;
  retryable = false;
  code = or_default code "USER_CANCELLED";
}
classify_status skipped exit code = record {
  reason = some cancel;
  retryable = false;
  code = or_default code "USER_CANCELLED";
}
classify_status _ exit code =
    if exited_badly exit
    then record {
      reason = some provider_error;
      retryable = true;
      code = or_default code "PROVIDER_PROCESS_FAILED";
    }
    else record { reason = some unknown; retryable = false; code = code }

abbrev pub map_truthy : Option String → Option (Option FailureReason × Bool)
map_truthy t = elim (truthy t) [ none ↦ none | some key ↦ mapped key ]

-- The checks of the result.
abbrev pub by_result : AgentResult → Option String → Classification
by_result r code =
    if r.ok
    then record { reason = some unknown; retryable = false; code = none }
    else classify_status r.status r.exit_code code

-- The check of the name, with what `errorMap` has for it.
abbrev pub by_name :
    Option (Option FailureReason × Bool)
    → AgentResult
    → Option String
    → Option String
    → Classification
by_name (some (reason, retryable)) r code name = record {
  reason = reason;
  retryable = retryable;
  code = elim (truthy code) [ none ↦ name | some c ↦ some c ];
}
by_name none r code name = by_result r code

-- The check of the code.
abbrev pub by_code :
    Option (Option FailureReason × Bool)
    → AgentResult
    → Option String
    → Option String
    → Classification
by_code (some (reason, retryable)) r code name = record {
  reason = reason;
  retryable = retryable;
  code = code;
}
by_code none r code name = by_name (map_truthy name) r code name

unfoldable pub classify : Option ThrownError → AgentResult → Classification
unfolding mapped
classify thrown r = let (code, name) = error_code thrown r in by_code (map_truthy code) r code name
