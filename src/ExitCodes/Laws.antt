-- ===== src/ExitCodes/Laws.antt =====
-- The exit code of an error agrees with the class that agents/attempt-classifier.ts puts it in.
use open_dynamic_workflow.Base.{
  ℕ, ℕ_eq, nat_eq, ◌==◌, ◌≡◌, refl, sym, ap, ◌∙◌, subst, String, String_eq, Bool, true, Option,
  none, some, List, [], ◌∷◌, if_intro_when, and-left, and-right, lookup, ◌&&◌,
}
use open_dynamic_workflow.ExitCodes.{
  ExitCode, cancelled, timeout, security_violation, exit_or_failed, exit_codes, exit_code_for_error,
}
use open_dynamic_workflow.Retry.Classifier.{
  FailureReason, error_map, cancel, security_policy_violation, timeout as timeout_reason,
}

-- How a run was stopped from outside, told by the exit code: 1 cancelled, 2 timed out, 3 forbidden.
abbrev pub stop_of_exit : ExitCode → ℕ
stop_of_exit cancelled = 1
stop_of_exit timeout = 2
stop_of_exit security_violation = 3
stop_of_exit _ = 0

-- The same, told by the reason of the attempt classifier.
abbrev pub stop_of_reason : FailureReason → ℕ
stop_of_reason cancel = 1
stop_of_reason timeout_reason = 2
stop_of_reason security_policy_violation = 3
stop_of_reason _ = 0

abbrev pub stop_of_code : Option (FailureReason × Bool) → ℕ
stop_of_code none = 0
stop_of_code (some (reason, retryable)) = stop_of_reason reason

module _ {V : Type 0} (P : String → V → Bool) where
  unfoldable every : List (String × V) → Bool
  every [] = true
  every ((key, v) ∷ m) = P key v && every m

  unfoldable Holds : String → Option V → Type 0
  Holds key none = Unit
  Holds key (some v) = P key v ≡ true

  lookup-Holds : (key : String) (m : List (String × V)) → every m ≡ true → Holds key (lookup key m)
  unfolding every Holds lookup
  lookup-Holds key [] h = tt
  lookup-Holds key ((k, v) ∷ m) h =
      if_intro_when (Holds key) (k == key)
        (λ same.
          subst (λ i. P i v ≡ true) ((String_eq.same_iff k key).0 same)
            (and-left (P k v) (every m) h))
        (lookup-Holds key m (and-right (P k v) (every m) h))

exits_agree :
    every
      (λ code exit. nat_eq (stop_of_exit exit) (stop_of_code (lookup code error_map)))
      exit_codes
    ≡ true
unfolding every lookup
exits_agree = refl

reasons_agree :
    every
      (λ code v. nat_eq (stop_of_exit (exit_code_for_error (some code))) (stop_of_reason v.0))
      error_map
    ≡ true
unfolding every lookup exit_code_for_error
reasons_agree = refl

agreed :
    (code : String) (e : Option ExitCode) (m : Option (FailureReason × Bool))
    → exit_code_for_error (some code) ≡ exit_or_failed e
    → lookup code error_map ≡ m
    → Holds (λ c exit. nat_eq (stop_of_exit exit) (stop_of_code (lookup c error_map))) code e
    → Holds
        (λ c v. nat_eq (stop_of_exit (exit_code_for_error (some c))) (stop_of_reason v.0))
        code
        m
    → stop_of_exit (exit_or_failed e) ≡ stop_of_code m
unfolding Holds
agreed code none none p r h k = refl
agreed code none (some v) p r h k =
    ap stop_of_exit (sym p) ∙ (ℕ_eq.same_iff _ (stop_of_reason v.0)).0 k
agreed code (some exit) m p r h k =
    (ℕ_eq.same_iff (stop_of_exit exit) (stop_of_code (lookup code error_map))).0 h
    ∙ ap stop_of_code r

-- For each code the exit code says that the run was cancelled, timed out or forbidden just if the
-- attempt classifier gives that reason for it.
pub exit_code_for_error-stops :
    (code : String)
    → stop_of_exit (exit_code_for_error (some code)) ≡ stop_of_code (lookup code error_map)
unfolding exit_code_for_error
exit_code_for_error-stops code =
    agreed code (lookup code exit_codes) (lookup code error_map) refl refl
      (lookup-Holds _ code exit_codes exits_agree) (lookup-Holds _ code error_map reasons_agree)
