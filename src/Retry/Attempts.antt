-- ===== src/Retry/Attempts.antt =====
-- The attempts of `execute`: the invariant of the loop.
use open_dynamic_workflow.Base.{
  ℕ, suc, ◌+◌, ◌*◌, ◌≤◌, ◌≡◌, refl, ◌∙◌, Bool, true, false, Option, none, some, List, [], ◌∷◌, ◌++◌,
  length, length-append, filter, filter-append, All, All-append, append-nil, leb, ltb, ◌&&◌,
  if_intro, if_intro_when, and-left, arith, String,
}
use open_dynamic_workflow.Agent.{AgentResult}
use open_dynamic_workflow.RunLimits.{RunLimitTracker}
use open_dynamic_workflow.Retry.Classifier.{classify}
use open_dynamic_workflow.Retry.Delay.{RetryPolicy, unit_ms, compute_retry_delay}
use open_dynamic_workflow.Retry.State.{
  RetryInput, Surroundings, AttemptSummary, Event, agent_started, agent_completed, agent_failed,
  agent_timed_out, agent_cancelled, retry_skipped_delay, retry_scheduled, attempt_started,
  attempt_completed, attempt_failed, LoopState, emit, push,
}
use open_dynamic_workflow.Retry.Parts.{max_attempts, attempt_result, summarize}
use open_dynamic_workflow.Retry.Pass.{
  retry, fail, succeed, attempt, refuse, proceed, charge, pass, loop, start,
}
use open_dynamic_workflow.Retry.Loop.{Sat, loop_rule}

-- The attempts carry the numbers from k on.
unfoldable pub Numbered : ℕ → List AttemptSummary → Type 0
Numbered k [] = Unit
Numbered k (a ∷ rest) = (a.attempt ≡ k) × Numbered (suc k) rest

-- A failure that a retry followed: it was retryable, and the delay is within the policy's bound.
abbrev delay_within : ℕ → Option ℕ → Bool
delay_within cap none = false
delay_within cap (some d) = leb d cap

abbrev pub IsRetried : RetryPolicy → AttemptSummary → Type 0
IsRetried p a =
    (a.retryable ≡ true) × (delay_within (p.max_delay_ms * unit_ms) a.computed_delay ≡ true)

unfoldable pub AllButLast : (AttemptSummary → Type 0) → List AttemptSummary → Type 0
AllButLast P [] = Unit
AllButLast P (a ∷ []) = Unit
AllButLast P (a ∷ b ∷ rest) = P a × AllButLast P (b ∷ rest)

-- The events that begin and end the whole call.
unfoldable pub is_lifecycle : Event → Bool
is_lifecycle agent_started = true
is_lifecycle agent_completed = true
is_lifecycle agent_failed = true
is_lifecycle agent_timed_out = true
is_lifecycle agent_cancelled = true
is_lifecycle _ = false

Numbered-append :
    (k : ℕ) (xs : List AttemptSummary) (a : AttemptSummary)
    → Numbered k xs
    → a.attempt ≡ k + length xs
    → Numbered k (xs ++ a ∷ [])
unfolding Numbered
Numbered-append k [] a h e = (ground (arith, e), tt)
Numbered-append k (x ∷ xs) a h e = (h.0, Numbered-append (suc k) xs a h.1 (ground (arith, e)))

AllButLast-append :
    (P : AttemptSummary → Type 0) (xs : List AttemptSummary) (a : AttemptSummary)
    → All P xs
    → AllButLast P (xs ++ a ∷ [])
unfolding AllButLast
AllButLast-append P [] a h = tt
AllButLast-append P (x ∷ []) a h = (h.0, tt)
AllButLast-append P (x ∷ y ∷ xs) a h = (h.0, AllButLast-append P (y ∷ xs) a h.1)

All-AllButLast :
    (P : AttemptSummary → Type 0) (xs : List AttemptSummary) → All P xs → AllButLast P xs
unfolding AllButLast
All-AllButLast P [] h = tt
All-AllButLast P (x ∷ []) h = tt
All-AllButLast P (x ∷ y ∷ xs) h = (h.0, All-AllButLast P (y ∷ xs) h.1)

-- At the head of the loop, with `left` passes to come.
pub record Head (q : RetryInput) (left : ℕ) (s : LoopState) : Type 0 where
  pub started : s.attempts_started ≡ length s.attempts
  pub next : s.attempt_num ≡ suc (length s.attempts)
  pub bound : length s.attempts + left ≤ max_attempts q
  pub numbered : Numbered 1 s.attempts
  pub retried : All (IsRetried q.policy) s.attempts
  pub lifecycle : filter is_lifecycle s.events ≡ agent_started ∷ []

-- As the loop ends.
pub record Ended (q : RetryInput) (s : LoopState) : Type 0 where
  pub started : s.attempts_started ≡ length s.attempts
  pub bound : length s.attempts ≤ max_attempts q
  pub numbered : Numbered 1 s.attempts
  pub retried : AllButLast (IsRetried q.policy) s.attempts
  pub lifecycle : filter is_lifecycle s.events ≡ agent_started ∷ []

-- While a pass runs, after `attemptsStarted++`.
record Under (q : RetryInput) (left : ℕ) (s : LoopState) : Type 0 where
  started : s.attempts_started ≡ suc (length s.attempts)
  next : s.attempt_num ≡ suc (length s.attempts)
  bound : length s.attempts + suc left ≤ max_attempts q
  numbered : Numbered 1 s.attempts
  retried : All (IsRetried q.policy) s.attempts
  lifecycle : filter is_lifecycle s.events ≡ agent_started ∷ []

filter-emit :
    (e : Event) (es : List Event)
    → is_lifecycle e ≡ false
    → filter is_lifecycle (es ++ e ∷ []) ≡ filter is_lifecycle es
filter-emit e es h =
    ground (arith, filter-append is_lifecycle es (e ∷ []), append-nil (filter is_lifecycle es), h)

module _ {q : RetryInput} {left : ℕ} {s : LoopState} (u : Under q left s) where
  Under-emit : (e : Event) → is_lifecycle e ≡ false → Under q left (emit e s)
  Under-emit e h = record {
    started = u.started;
    next = u.next;
    bound = u.bound;
    numbered = u.numbered;
    retried = u.retried;
    lifecycle = filter-emit e s.events h ∙ u.lifecycle;
  }

  Under-push : (a : AttemptSummary) → a.attempt ≡ s.attempt_num → Ended q (push a s)
  Under-push a h = record {
    started = ground (arith, u.started, length-append s.attempts (a ∷ []));
    bound = ground (arith, u.bound, length-append s.attempts (a ∷ []));
    numbered = Numbered-append 1 s.attempts a u.numbered (ground (arith, h, u.next));
    retried = AllButLast-append (IsRetried q.policy) s.attempts a u.retried;
    lifecycle = u.lifecycle;
  }

  Under-next :
      (a : AttemptSummary) (prompt : String)
      → a.attempt ≡ s.attempt_num
      → IsRetried q.policy a
      → Head q left (record (push a s) { current_prompt = prompt; attempt_num = s.attempt_num + 1 })
  Under-next a prompt h r = record {
    started = ground (arith, u.started, length-append s.attempts (a ∷ []));
    next = ground (arith, u.next, length-append s.attempts (a ∷ []));
    bound = ground (arith, u.bound, length-append s.attempts (a ∷ []));
    numbered = Numbered-append 1 s.attempts a u.numbered (ground (arith, h, u.next));
    retried = All-append (IsRetried q.policy) s.attempts (a ∷ []) u.retried (r, tt);
    lifecycle = u.lifecycle;
  }

delay-within :
    (p : RetryPolicy) (n random : ℕ)
    → delay_within (p.max_delay_ms * unit_ms) (some (compute_retry_delay p n random).delay) ≡ true
unfolding compute_retry_delay
delay-within p n random = ground arith

retried_lem :
    (q : RetryInput) (w : Surroundings) (r : AgentResult) (s : LoopState) (skip : Bool)
    → (classify none r).retryable ≡ true
    → IsRetried q.policy (record (summarize q s.attempt_num w r) {
      computed_delay = some (compute_retry_delay q.policy s.attempt_num w.random).delay;
      delay_skipped = skip;
    })
retried_lem q w r s skip h = (h, delay-within q.policy s.attempt_num w.random)

module _ {q : RetryInput} {left : ℕ} (w : Surroundings) (r : AgentResult) where
  Sat-retry :
      (s : LoopState)
      → Under q left s
      → (classify none r).retryable ≡ true
      → Sat (Head q left) (λ s' e. Ended q s') (retry q w r s)
  unfolding Sat retry is_lifecycle
  Sat-retry s u h =
      let P = Sat (Head q left) (λ s' e. Ended q s') in
      let delay = (compute_retry_delay q.policy s.attempt_num w.random).delay in
      let skip = Under-emit u (retry_skipped_delay s.attempt_num delay) refl in
      let wait = Under-emit u (retry_scheduled s.attempt_num delay) refl in
      if_intro P w.aborted_at_delay (Under-push u _ refl) (
        if_intro P q.policy.disable_delay (Under-next skip _ _ refl (retried_lem q w r s true h)) (
          if_intro P w.sleep_aborted (Under-push wait _ refl)
            (Under-next wait _ _ refl (retried_lem q w r s false h))))

  Sat-fail :
      (s : LoopState) → Under q left s → Sat (Head q left) (λ s' e. Ended q s') (fail q w r s)
  unfolding Sat fail is_lifecycle
  Sat-fail s u =
      let P = Sat (Head q left) (λ s' e. Ended q s') in
      let c = classify none r in
      let u' = Under-emit u (attempt_failed s.attempt_num r.status c.retryable) refl in
      if_intro P w.aborted_after (Under-push u' _ refl) (
        if_intro_when P (c.retryable && ltb s.attempt_num (max_attempts q))
          (λ h. Sat-retry _ u' (and-left c.retryable _ h)) (Under-push u' _ refl))

  Sat-succeed :
      (s : LoopState) → Under q left s → Sat (Head q left) (λ s' e. Ended q s') (succeed q w r s)
  unfolding Sat succeed is_lifecycle
  Sat-succeed s u = Under-push (Under-emit u (attempt_completed s.attempt_num) refl) _ refl

module _ {q : RetryInput} {left : ℕ} (w : Surroundings) where
  Sat-attempt :
      (s : LoopState) → Under q left s → Sat (Head q left) (λ s' e. Ended q s') (attempt q w s)
  unfolding attempt is_lifecycle
  Sat-attempt s u =
      let r = attempt_result q s.attempt_num w in
      let s' = record s { prompts = s.prompts ++ s.current_prompt ∷ [] } in
      let asked : Under q left s' = record {
        started = u.started;
        next = u.next;
        bound = u.bound;
        numbered = u.numbered;
        retried = u.retried;
        lifecycle = u.lifecycle;
      } in
      let u' = Under-emit asked (attempt_started s.attempt_num) refl in
      if_intro (Sat (Head q left) (λ s'' e. Ended q s'')) r.ok (Sat-succeed w r _ u')
        (Sat-fail w r _ u')

  Sat-proceed :
      (refusal : Option String) (s : LoopState)
      → Under q left s
      → Sat (Head q left) (λ s' e. Ended q s') (proceed q w refusal s)
  unfolding Sat proceed refuse
  Sat-proceed (some message) s u = Under-push u _ refl
  Sat-proceed none s u = Sat-attempt s u

  Sat-pass :
      (s : LoopState) → Head q (suc left) s → Sat (Head q left) (λ s' e. Ended q s') (pass q w s)
  unfolding Sat pass
  Sat-pass s h =
      if_intro (Sat (Head q left) (λ s' e. Ended q s')) w.aborted_before
        record {
          started = h.started;
          bound = omega (arith, h.bound);
          numbered = h.numbered;
          retried = All-AllButLast (IsRetried q.policy) s.attempts h.retried;
          lifecycle = h.lifecycle;
        }
        (Sat-proceed (charge q w s).1 _ record {
          started = omega (arith, h.started);
          next = h.next;
          bound = h.bound;
          numbered = h.numbered;
          retried = h.retried;
          lifecycle = h.lifecycle;
        })

start-Head : (q : RetryInput) (t : RunLimitTracker) → Head q (max_attempts q) (start q t)
unfolding is_lifecycle Numbered
start-Head q t = record {
  started = refl;
  next = refl;
  bound = omega arith;
  numbered = tt;
  retried = tt;
  lifecycle = refl;
}

pub loop-Ended :
    (q : RetryInput) (t : RunLimitTracker) (env : ℕ → Surroundings)
    → Ended q (loop q env (max_attempts q) (start q t)).0
loop-Ended q t env =
    loop_rule q env (Head q) (λ s e. Ended q s) (λ left s h. Sat-pass (env s.attempt_num) s h)
      (λ s h. record {
        started = h.started;
        bound = omega (arith, h.bound);
        numbered = h.numbered;
        retried = All-AllButLast (IsRetried q.policy) s.attempts h.retried;
        lifecycle = h.lifecycle;
      })
      (max_attempts q) (start q t) (start-Head q t)
