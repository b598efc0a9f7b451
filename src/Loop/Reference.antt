-- ===== src/Loop/Reference.antt =====
-- A loop with nothing from outside in its way, and a step in place of its callback, is an iteration.
use open_dynamic_workflow.Base.{
  list_eq, ℕ, zero, suc, ◌+◌, ◌≡◌, refl, sym, ap, ap₂, ◌∙◌, subst, ◌<◌, Bool, true, false, none,
  some, length, length-append, arith, codes, Bool-cases, inl, inr, if◌then◌else◌, ◌==◌, ℕ_eq, ok,
}
use open_dynamic_workflow.Context.Json.{JsValue, JsFields}
use open_dynamic_workflow.Workflow.Json.{Prototype, CloneFields, Clone, as_value, clone_recursive}
use open_dynamic_workflow.Loop.Data.{
  LoopFailureMode, throw, settled, LoopStatus, LoopError, exhausted, live, is_undefined,
  validate_loop_run_result, property, extra_key,
}
use open_dynamic_workflow.Loop.Rounds.{
  returned, Meets, Progress, Ended, ended, escaped, run_rounds, round, complete_round, start_round,
  after_round, finish_round, clone_next, write_round, invalid, settle_round, abort_status, call_run,
}
use open_dynamic_workflow.Loop.Run.{LoopOutcome, returns_state, returns_result, rejects}

-- `{ done, nextState }`
abbrev pub result : Bool × Clone → JsValue
result (done, next) = JsValue.object true (
    JsFields.field (codes "done") (JsValue.boolean done)
      (JsFields.field (codes "nextState") (as_value next) JsFields.end))

-- The state after at most so many steps, with their number: whether a step says that it is done, or the
-- steps are used up.
unfoldable pub iterate : (Clone → Bool × Clone) → ℕ → Clone → Bool × (Clone × ℕ)
iterate step zero s = (false, (s, 0))
iterate step (suc n) s =
    let rest = iterate step n (step s).1 in
    if (step s).0 then (true, ((step s).1, 1)) else (rest.0, (rest.1.0, suc rest.1.1))

-- What the loop reports of it.
abbrev pub report : LoopFailureMode → Bool × (Clone × ℕ) → LoopOutcome
report throw (true, (s, n)) = returns_state s
report throw (false, (s, n)) = rejects exhausted
report settled (true, (s, n)) = returns_result record {
  ok = true;
  status = LoopStatus.succeeded;
  rounds_completed = n;
  final_state = some s;
  error = none;
}
report settled (false, (s, n)) = returns_result record {
  ok = false;
  status = LoopStatus.max_rounds;
  rounds_completed = n;
  final_state = some s;
  error = some exhausted;
}

-- Nothing is aborted, and the callback does the step; its states are JSON.
pub record Steps (step : Clone → Bool × Clone) (meets : ℕ → Meets) : Type 0 where
  pub undisturbed : (n : ℕ) → (meets n).abort_before ≡ live
  pub does : (n : ℕ) (s : Clone) → (meets n).run s ≡ returned (result (step s))
  pub clean : (s : Clone) → clone_recursive (as_value (step s).1) ≡ some (step s).1

as_value-defined : (j : Clone) → is_undefined (as_value j) ≡ false
unfolding as_value
as_value-defined Clone.null = refl
as_value-defined (Clone.boolean b) = refl
as_value-defined (Clone.number n) = refl
as_value-defined (Clone.text t) = refl
as_value-defined (Clone.array xs) = refl
as_value-defined (Clone.object q fs) = refl

pub validate-result :
    (r : Bool × Clone)
    → validate_loop_run_result (result r) ≡ ok record { done = r.0; next_state = as_value r.1 }
unfolding validate_loop_run_result property extra_key list_eq
validate-result (done, next) = rw (as_value-defined next) refl

-- The copy of a result.
abbrev pub copied : Bool × Clone → Clone
copied (done, next) = Clone.object Prototype.ordinary (
    CloneFields.field (codes "done") (Clone.boolean done)
      (CloneFields.field (codes "nextState") next CloneFields.end))

pub result-copied :
    (r : Bool × Clone)
    → clone_recursive (as_value r.1) ≡ some r.1
    → clone_recursive (result r) ≡ some (copied r)
unfolding clone_recursive list_eq
result-copied (done, next) c = rw c refl

settle-result :
    (max_rounds : ℕ) (m : Meets) (i : ℕ) (s : Clone) (p : Progress) (next_round : Progress → Ended)
    (r : Bool × Clone)
    → clone_recursive (as_value r.1) ≡ some r.1
    → settle_round max_rounds m i s p next_round (some (returned (result r)))
      ≡ after_round max_rounds m i s p next_round r.0 r.1
settle-result max_rounds m i s p next_round r c =
    ap (λ v. finish_round max_rounds m i s p next_round (result r) (invalid max_rounds m i s p v))
      (validate-result r)
    ∙ ap (clone_next max_rounds m i s p next_round (result r) r.0) c
    ∙ ap₂ (write_round max_rounds m i s p next_round r.0 r.1) (result-copied r c) c

-- What the rounds end with, from a progress with so many rounds.
abbrev pub Ends : ℕ → Bool × (Clone × ℕ) → Ended → Type 0
Ends k (done, (s, n)) (ended q status loop_error round_error) =
    (q.current_state ≡ s)
    × (length q.rounds ≡ k + n)
    × (status ≡ some (if done then LoopStatus.succeeded else LoopStatus.max_rounds))
    × (loop_error ≡ (if done then none else some exhausted))
    × (round_error ≡ (if done then none else some exhausted))
    × (clone_recursive (as_value q.current_state) ≡ some q.current_state)
Ends k r (escaped q e) = ⊥

Ends-suc :
    (k l : ℕ) (r : Bool × (Clone × ℕ)) (e : Ended)
    → l ≡ k + 1
    → Ends l r e
    → Ends k (r.0, (r.1.0, suc r.1.1)) e
Ends-suc k l (done, (s, n)) (ended q a b c) h (t, u, v, w, x, stable) =
    (t, omega (arith, u, h), v, w, x, stable)
Ends-suc k l r (escaped q e) h x = x

same_number : (m n : ℕ) → m ≡ n → (m == n) ≡ true
same_number m n h = (ℕ_eq.same_iff m n).1 h

other_number : (m n : ℕ) → m < n → (m == n) ≡ false
other_number m n h = elim (Bool-cases (m == n)) [
  | inl e ↦ absurd (omega (arith, (ℕ_eq.same_iff m n).0 e, h))
  | inr e ↦ e
]

module _ (step : Clone → Bool × Clone) (meets : ℕ → Meets) (steps : Steps step meets)
    (max_rounds : ℕ) where
  round-step :
      (i : ℕ) (p : Progress) (next_round : Progress → Ended)
      → clone_recursive (as_value p.current_state) ≡ some p.current_state
      → round max_rounds (meets i) i p next_round (clone_recursive (as_value p.current_state))
        ≡ after_round max_rounds
            (meets i)
            i
            p.current_state
            (start_round i p)
            next_round
            (step p.current_state).0
            (step p.current_state).1
  round-step i p next_round c =
      let s = p.current_state in
      let settle = settle_round max_rounds (meets i) i s (start_round i p) next_round in
      ap (round max_rounds (meets i) i p next_round) c
      ∙ ap
          (λ a. elim (abort_status a) [
            | some status ↦ ended p (some status) (some LoopError.aborted) none
            | none ↦ settle (call_run (meets i).run (clone_recursive (as_value s)))
          ])
          (steps.undisturbed i)
      ∙ ap (λ o. settle (call_run (meets i).run o)) c
      ∙ ap (λ o. settle (some o)) (steps.does i s)
      ∙ settle-result max_rounds (meets i) i s (start_round i p) next_round (step s) (steps.clean s)

  -- What follows a round, by what it says and by what the rounds that may follow end with.
  after_round-Ends :
      (left i : ℕ) (p : Progress) (next_round : Progress → Ended) (done : Bool) (next : Clone)
      → clone_recursive (as_value next) ≡ some next
      → (i + 1 == max_rounds) ≡ false
      → Ends (length p.rounds + 1) (iterate step left next) (
          next_round (complete_round max_rounds (meets i) i p.current_state (start_round i p) next))
      → Ends
          (length p.rounds)
          (if done then (true, (next, 1)) else (
            (iterate step left next).0,
            ((iterate step left next).1.0, suc (iterate step left next).1.1),
          ))
          (after_round max_rounds
            (meets i)
            i
            p.current_state
            (start_round i p)
            next_round
            done
            next)
  after_round-Ends left i p next_round true next c e h =
      (refl, length-append p.rounds _, refl, refl, refl, c)
  after_round-Ends left i p next_round false next c e h =
      rw e (Ends-suc (length p.rounds) _ (iterate step left next) _ refl h)

  last_round-Ends :
      (i : ℕ) (p : Progress) (next_round : Progress → Ended) (done : Bool) (next : Clone)
      → clone_recursive (as_value next) ≡ some next
      → (i + 1 == max_rounds) ≡ true
      → Ends (length p.rounds) (if done then (true, (next, 1)) else (false, (next, 1))) (
          after_round max_rounds (meets i) i p.current_state (start_round i p) next_round done next)
  last_round-Ends i p next_round true next c e =
      (refl, length-append p.rounds _, refl, refl, refl, c)
  last_round-Ends i p next_round false next c e =
      rw e (refl, length-append p.rounds _, refl, refl, refl, c)

  pub run_rounds-iterate :
      (left i : ℕ) (p : Progress)
      → i + suc left ≡ max_rounds
      → clone_recursive (as_value p.current_state) ≡ some p.current_state
      → Ends
          (length p.rounds)
          (iterate step (suc left) p.current_state)
          (run_rounds max_rounds meets (suc left) i p)
  unfolding run_rounds iterate
  run_rounds-iterate zero i p e c =
      let next_round = λ (q : Progress). run_rounds max_rounds meets 0 (i + 1) q in
      subst (Ends (length p.rounds) (iterate step 1 p.current_state))
        (sym (round-step i p next_round c))
        (last_round-Ends i p next_round (step p.current_state).0 (step p.current_state).1
          (steps.clean p.current_state) (same_number _ _ e))
  run_rounds-iterate (suc left) i p e c =
      let s = p.current_state in
      let next_round = λ (q : Progress). run_rounds max_rounds meets (suc left) (i + 1) q in
      let q = complete_round max_rounds (meets i) i s (start_round i p) (step s).1 in
      subst (Ends (length p.rounds) (iterate step (suc (suc left)) s))
        (sym (round-step i p next_round c))
        (after_round-Ends (suc left) i p next_round (step s).0 (step s).1 (steps.clean s)
          (other_number _ _ (omega (arith, e)))
          (subst (λ l. Ends l (iterate step (suc left) (step s).1) (next_round q))
            (length-append p.rounds _)
            (run_rounds-iterate left (i + 1) q (omega (arith, e)) (steps.clean s))))
