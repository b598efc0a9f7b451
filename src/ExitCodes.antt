-- ===== src/ExitCodes.antt =====
-- errors/exit-codes.ts, `exitCodeForError`, on the codes of errors/codes.ts. An error of another
-- class has no code here.
pub mod Laws
mod Examples
use open_dynamic_workflow.Base.{
  String, String_eq, ◌==◌, Bool, Option, none, some, List, [], ◌∷◌, lookup,
}

pub data ExitCode : Type 0 where
  success general_error cli_usage_error workflow_invalid resource_not_found execution_failed
        cancelled timeout internal_error security_violation :
      ExitCode

-- The cases of the switch.
abbrev pub exit_codes : List (String × ExitCode)
exit_codes =
    ("CLI_USAGE_ERROR", cli_usage_error)
    ∷ ("CONFIG_VALIDATION_ERROR", cli_usage_error)
    ∷ ("PROFILE_FILE_INVALID", cli_usage_error)
    ∷ ("PROFILE_VALIDATION_ERROR", cli_usage_error)
    ∷ ("PROFILE_CONTEXT_INVALID", cli_usage_error)
    ∷ ("PROFILE_RESERVED_PATH", cli_usage_error)
    ∷ ("PROFILE_OPTION_CONFLICT", cli_usage_error)
    ∷ ("WORKFLOW_PARSE_ERROR", workflow_invalid)
    ∷ ("WORKFLOW_VALIDATION_ERROR", workflow_invalid)
    ∷ ("WORKFLOW_DEFINITION_NOT_FOUND", workflow_invalid)
    ∷ ("WORKFLOW_DUPLICATE_DEFINITION", workflow_invalid)
    ∷ ("WORKFLOW_INVALID_CALL", workflow_invalid)
    ∷ ("WORKFLOW_INPUT_VALIDATION_FAILED", workflow_invalid)
    ∷ ("WORKFLOW_RECURSION_DETECTED", workflow_invalid)
    ∷ ("WORKFLOW_MAX_DEPTH_EXCEEDED", workflow_invalid)
    ∷ ("WORKFLOW_DUPLICATE_NAME", workflow_invalid)
    ∷ ("WORKFLOW_DISCOVERY_FAILED", workflow_invalid)
    ∷ ("WORKFLOW_INVALID_METADATA", workflow_invalid)
    ∷ ("WORKFLOW_RESUME_TARGET_CHANGED", workflow_invalid)
    ∷ ("TOOL_DEFINITION_NOT_FOUND", workflow_invalid)
    ∷ ("TOOL_DUPLICATE_DEFINITION", workflow_invalid)
    ∷ ("TOOL_INVALID_DEFINITION", workflow_invalid)
    ∷ ("TOOL_INVALID_CONTEXT", workflow_invalid)
    ∷ ("PROVIDER_ALIAS_INVALID_DEFINITION", workflow_invalid)
    ∷ ("PROVIDER_ALIAS_DUPLICATE_DEFINITION", workflow_invalid)
    ∷ ("PROVIDER_ALIAS_NAMESPACE_CONFLICT", workflow_invalid)
    ∷ ("PROVIDER_ALIAS_PARENT_NOT_FOUND", workflow_invalid)
    ∷ ("PROVIDER_ALIAS_CYCLE_DETECTED", workflow_invalid)
    ∷ ("PROVIDER_ALIAS_MAX_DEPTH_EXCEEDED", workflow_invalid)
    ∷ ("PROVIDER_ALIAS_PROVIDER_REQUIRED", workflow_invalid)
    ∷ ("PROVIDER_ALIAS_PROVIDER_REPLACEMENT", workflow_invalid)
    ∷ ("PROVIDER_ALIAS_PROVIDER_NOT_FOUND", workflow_invalid)
    ∷ ("PROVIDER_REFERENCE_NOT_FOUND", workflow_invalid)
    ∷ ("PROVIDER_UNAVAILABLE", resource_not_found)
    ∷ ("WORKFLOW_TARGET_NOT_FOUND", resource_not_found)
    ∷ ("WORKFLOW_FILE_NOT_FOUND", resource_not_found)
    ∷ ("PROFILE_NOT_FOUND", resource_not_found)
    ∷ ("PROFILE_FILE_NOT_FOUND", resource_not_found)
    ∷ ("SECURITY_POLICY_VIOLATION", security_violation)
    ∷ ("SHARED_AGENT_SECURITY_POLICY_VIOLATION", security_violation)
    ∷ ("USER_CANCELLED", cancelled)
    ∷ ("TOOL_CANCELLED", cancelled)
    ∷ ("WORKFLOW_CANCELLED", cancelled)
    ∷ ("PROCESS_TIMEOUT", timeout)
    ∷ ("WORKFLOW_TIMEOUT", timeout)
    ∷ ("TOOL_TIMEOUT", timeout)
    ∷ ("INTERNAL_ERROR", internal_error)
    ∷ ("ARTIFACT_WRITE_FAILED", internal_error)
    ∷ ("TOOL_ARTIFACT_WRITE_FAILED", internal_error)
    ∷ ("PROVIDER_PROCESS_FAILED", general_error)
    ∷ ("SCHEMA_VALIDATION_FAILED", general_error)
    ∷ ("TOOL_EXECUTION_FAILED", general_error)
    ∷ ("TOOL_INVALID_INPUT", general_error)
    ∷ ("TOOL_INVALID_OUTPUT", general_error)
    ∷ ("TOOL_SERIALIZATION_FAILED", general_error)
    ∷ ("WORKFLOW_FAILED", general_error)
    ∷ ("RUN_LIMIT_EXCEEDED", general_error)
    ∷ ("RETRY_EXHAUSTED", general_error)
    ∷ []

-- The default case.
abbrev pub exit_or_failed : Option ExitCode → ExitCode
exit_or_failed none = execution_failed
exit_or_failed (some exit) = exit

-- `exitCodeForError` of an error with this code, or of an error of another class.
unfoldable pub exit_code_for_error : Option String → ExitCode
exit_code_for_error none = internal_error
exit_code_for_error (some code) = exit_or_failed (lookup code exit_codes)
