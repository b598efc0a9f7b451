-- ===== src/ExitCodes/Examples.antt =====
-- The exit codes of some errors.
use open_dynamic_workflow.Base.{◌≡◌, refl, String_eq, some, lookup}
use open_dynamic_workflow.Retry.Classifier.{error_map}
use open_dynamic_workflow.ExitCodes.{exit_code_for_error, general_error, execution_failed}
use open_dynamic_workflow.ExitCodes.Laws.{stop_of_exit, stop_of_code, exit_code_for_error-stops}

exhausted : exit_code_for_error (some "RETRY_EXHAUSTED") ≡ general_error
unfolding exit_code_for_error lookup
exhausted = refl

bad_path : exit_code_for_error (some "CONTEXT_INVALID_PATH") ≡ execution_failed
unfolding exit_code_for_error lookup
bad_path = refl

exit_code_for_error-stops_example :
    stop_of_exit (exit_code_for_error (some "TOOL_TIMEOUT"))
    ≡ stop_of_code (lookup "TOOL_TIMEOUT" error_map)
exit_code_for_error-stops_example = exit_code_for_error-stops "TOOL_TIMEOUT"
