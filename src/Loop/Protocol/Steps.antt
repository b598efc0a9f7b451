-- ===== src/Loop/Protocol/Steps.antt =====
-- The records and the events of the rounds of a loop, round by round.
use open_dynamic_workflow.Context.Json.{JsValue}
use open_dynamic_workflow.Base.{
  subst, sym, ap₂, ℕ, zero, suc, ◌+◌, ◌≡◌, ◌≢◌, refl, ap, Bool, true, false, Option, none, some,
  Result, ok, err, ◌==◌, ℕ_eq, if_intro, Bool-cases, inl, inr, arith,
}
use open_dynamic_workflow.Workflow.Json.{Clone, as_value, clone_recursive}
use open_dynamic_workflow.Workflow.Json.Laws.{clone-stable}
use open_dynamic_workflow.Loop.Data.{
  LoopStatus, LoopRoundStatus, Thrown, nullish, falsy, error, LoopError, thrown, Abort, live,
  parent_aborted, timed_out, LoopRunResult, state_not_json, InvalidRunResult,
  validate_loop_run_result,
}
use open_dynamic_workflow.Loop.Rounds.{
  Outcome, returned, rejected, Meets, Progress, Ended, ended, escaped, abort_status, catch_status,
  complete_round, after_round, finish_round, clone_next, write_round, invalid, caught, settle_round,
  call_run, start_round, round, run_rounds,
}
use open_dynamic_workflow.Loop.Protocol.{
  Sound, RejectsWithSomething, IsCopied, ReturnsCopied, IsStable, fail_round-Sound,
  complete_round-Through, nothing_added, cancelled_ends, timed_out_ends, failed_ends,
}

module _ (max_rounds : ℕ) (m : Meets) (i left : ℕ) (p : Progress)
    (stable : IsStable p.current_state) where
  -- The rounds that follow a completed one.
  abbrev Follows : (Progress → Ended) → Type 0
  Follows next_round =
      (next : Clone)
      → clone_recursive (as_value next) ≡ some next
      → (i + 1 == max_rounds) ≡ false
      → Sound (i + 1) left (complete_round max_rounds m i p.current_state (start_round i p) next)
          (next_round (complete_round max_rounds m i p.current_state (start_round i p) next))

  Sound-completed :
      (next : Clone) (e : Ended)
      → Sound (i + 1) left (complete_round max_rounds m i p.current_state (start_round i p) next) e
      → Sound i (suc left) p e
  Sound-completed next (ended q status a b) h =
      complete_round-Through max_rounds m i left p next q status h
  Sound-completed next (escaped q e) h = h

  module _ (next_round : Progress → Ended) (follows : Follows next_round) where
    after_round-Sound :
        (done : Bool) (next : Clone)
        → clone_recursive (as_value next) ≡ some next
        → Sound i
            (suc left)
            p
            (after_round max_rounds m i p.current_state (start_round i p) next_round done next)
    after_round-Sound true next c =
        complete_round-Through max_rounds m i left p next _ _
          (nothing_added (i + 1) left _ LoopStatus.succeeded c)
    after_round-Sound false next c = elim (Bool-cases (i + 1 == max_rounds)) [
      | inl same ↦ rw same (
          complete_round-Through max_rounds m i left p next _ _
            (nothing_added (i + 1) left _ LoopStatus.max_rounds c))
      | inr other ↦ rw other (Sound-completed next _ (follows next c other))
    ]

    -- A next state that is its own clone, of a result that is copied.
    clone_next-Sound :
        (v : JsValue) (r : LoopRunResult) (o : Option Clone)
        → clone_recursive r.next_state ≡ o
        → IsCopied v r
        → Sound i
            (suc left)
            p
            (clone_next max_rounds m i p.current_state (start_round i p) next_round v r.done o)
    clone_next-Sound v r none e f =
        fail_round-Sound max_rounds m i left p LoopRoundStatus.failed state_not_json stable
          (λ h. cc)
    clone_next-Sound v r (some next) e f =
        let same = clone-stable r.next_state next f.0 e in
        let (copy, copied) = f.1 next e in
        subst (Sound i (suc left) p)
          (sym (
            ap₂
              (λ a b.
                write_round max_rounds m i p.current_state (start_round i p) next_round r.done next
                  a b)
              copied same))
          (after_round-Sound r.done next same)

    finish_round-Sound :
        (v : JsValue) (o : Result LoopError LoopRunResult)
        → ((r : LoopRunResult) → o ≡ ok r → IsCopied v r)
        → Sound i
            (suc left)
            p
            (finish_round max_rounds m i p.current_state (start_round i p) next_round v o)
    finish_round-Sound v (err e) f =
        fail_round-Sound max_rounds m i left p LoopRoundStatus.failed e stable (λ h. cc)
    finish_round-Sound v (ok r) f =
        clone_next-Sound v r (clone_recursive r.next_state) refl (f r refl)

    invalid_ok :
        (o : Result InvalidRunResult LoopRunResult) (r : LoopRunResult)
        → invalid max_rounds m i p.current_state p o ≡ ok r
        → o ≡ ok r
    invalid_ok (ok q) r e = cc
    invalid_ok (err q) r e = cc

    caught-Sound :
        (e : LoopError) (a : Abort) (t : Thrown)
        → t ≢ nullish
        → Sound i
            (suc left)
            p
            (caught max_rounds m i p.current_state (start_round i p) e (catch_status a t))
    caught-Sound e parent_aborted t h =
        fail_round-Sound max_rounds m i left p LoopRoundStatus.cancelled e stable (λ k. cc)
    caught-Sound e timed_out t h =
        fail_round-Sound max_rounds m i left p LoopRoundStatus.timed_out e stable (λ k. cc)
    caught-Sound e live nullish h = absurd (h refl)
    caught-Sound e live falsy h =
        fail_round-Sound max_rounds m i left p LoopRoundStatus.failed e stable (λ k. cc)
    caught-Sound e live (error name code) h = fail_round-Sound max_rounds m i left p _ e stable (
        if_intro (λ s. s ≢ LoopRoundStatus.completed) _ cancelled_ends
          (if_intro (λ s. s ≢ LoopRoundStatus.completed) _ timed_out_ends failed_ends))

    settle_round-Sound :
        (o : Outcome)
        → o ≢ rejected nullish
        → ((v : JsValue) (r : LoopRunResult)
            → o ≡ returned v
            → validate_loop_run_result v ≡ ok r
            → IsCopied v r)
        → Sound i
            (suc left)
            p
            (settle_round max_rounds m i p.current_state (start_round i p) next_round (some o))
    settle_round-Sound (returned v) h f =
        finish_round-Sound v _ (λ r e. f v r refl (invalid_ok (validate_loop_run_result v) r e))
    settle_round-Sound (rejected t) h f =
        caught-Sound (thrown t) m.abort_at_catch t (λ k. h (ap rejected k))

    round-Sound :
        ((s : Clone) → m.run s ≢ rejected nullish)
        → ((s : Clone) (v : JsValue) (r : LoopRunResult)
            → m.run s ≡ returned v
            → validate_loop_run_result v ≡ ok r
            → IsCopied v r)
        → Sound i
            (suc left)
            p
            (round max_rounds m i p next_round (clone_recursive (as_value p.current_state)))
    round-Sound h f = rw stable (through m.abort_before)
      where
        through :
            (a : Abort)
            → Sound i (suc left) p (elim (abort_status a) [
              | some status ↦ ended p (some status) (some LoopError.aborted) none
              | none ↦
                  settle_round max_rounds m i p.current_state
                    (start_round i p)
                    next_round
                    (call_run m.run (clone_recursive (as_value p.current_state)))
            ])
        through live =
            rw stable
              (settle_round-Sound (m.run p.current_state) (h p.current_state) (f p.current_state))
        through parent_aborted = nothing_added i (suc left) p LoopStatus.cancelled stable
        through timed_out = nothing_added i (suc left) p LoopStatus.timed_out stable

-- All rounds, of which there is at least one.
pub run_rounds-Sound :
    (max_rounds : ℕ) (meets : ℕ → Meets) (left i : ℕ) (p : Progress)
    → i + suc left ≡ max_rounds
    → RejectsWithSomething meets
    → ReturnsCopied meets
    → clone_recursive (as_value p.current_state) ≡ some p.current_state
    → Sound i (suc left) p (run_rounds max_rounds meets (suc left) i p)
unfolding run_rounds
run_rounds-Sound max_rounds meets zero i p e h f c =
    round-Sound max_rounds (meets i) i 0 p c (λ q. run_rounds max_rounds meets 0 (i + 1) q)
      (λ next k other. absurd (ground (arith, e, other))) (h i) (f i)
run_rounds-Sound max_rounds meets (suc left) i p e h f c =
    round-Sound max_rounds (meets i) i (suc left) p c
      (λ q. run_rounds max_rounds meets (suc left) (i + 1) q)
      (λ next k other. run_rounds-Sound max_rounds meets left (i + 1) _ (omega (arith, e)) h f k)
      (h i) (f i)
