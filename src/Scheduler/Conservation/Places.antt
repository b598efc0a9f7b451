-- ===== src/Scheduler/Conservation/Places.antt =====
-- Counting the places of a task through the parts of the scheduler's methods.
use open_dynamic_workflow.Base.{
  ℕ, ◌+◌, ◌≡◌, refl, ◌∙◌, ap, inl, inr, Bool, true, false, Bool-cases, Option, some, List, [], ◌∷◌,
  ◌++◌, map, String, arith, if◌then◌else◌, count, count-cons,
}
use open_dynamic_workflow.Agent.{AgentStatus, skipped}
use open_dynamic_workflow.Scheduler.{
  is_success, value, agent_completed, event_name_for_status, agent_status, agent_cancelled, skip,
  skip_message, Scheduler, InternalTask, TaskState, AbortArgument, Outcome, returned, threw,
  nullish, error, Returned, Settlement, EventType, handles, resolve, emit, mark_aborted, skip_task,
  skip_all, check_drain, abort, start_task, pump_loop, pump, store, settled_returned, settled_threw,
  finish_returned, finish_threw, settle,
}

-- How often a handle stands in one of the four places.
unfoldable pub held : ℕ → Scheduler → ℕ
held h s =
    count h (handles s.queue)
    + count h (handles s.in_flight)
    + count h (handles s.lost)
    + count h (map (λ r. r.0) s.settled)

module _ (h : ℕ) where
  abbrev pub one : ℕ → ℕ
  one k = count h (k ∷ [])

  pub handles-append :
      (xs : List InternalTask) (t : InternalTask)
      → count h (handles (xs ++ t ∷ [])) ≡ count h (handles xs) + one t.handle
  unfolding count
  handles-append [] t = omega arith
  handles-append (x ∷ xs) t = ground (arith, handles-append xs t)

  pub settled-append :
      (xs : List (ℕ × Settlement)) (k : ℕ) (v : Settlement)
      → count h (map (λ r. r.0) (xs ++ (k, v) ∷ [])) ≡ count h (map (λ r. r.0) xs) + one k
  unfolding count
  settled-append [] k v = omega arith
  settled-append (x ∷ xs) k v = ground (arith, settled-append xs k v)

  pub held-emit :
      (t : InternalTask) (e : EventType) (st : Option AgentStatus) (c : Option String)
      (s : Scheduler)
      → held h (emit t e st c s) ≡ held h s
  unfolding emit held
  held-emit t e st c s = ground arith

  pub held-resolve :
      (t : InternalTask) (v : Settlement) (s : Scheduler)
      → held h (resolve t v s) ≡ held h s + one t.handle
  unfolding resolve held
  held-resolve t v s = omega (arith, settled-append s.settled t.handle v)

  pub held-check_drain : (s : Scheduler) → held h (check_drain s) ≡ held h s
  unfolding check_drain held
  held-check_drain s = ground arith

  pub held-skip_task :
      (t : InternalTask) (s : Scheduler) → held h (skip_task t s) ≡ held h s + one t.handle
  unfolding skip_task
  held-skip_task t s = omega (
    arith,
    held-resolve t (skip (skip_message s.abort_reason))
        (emit t agent_cancelled (some skipped) (some "TASK_SKIPPED") s),
    held-emit t agent_cancelled (some skipped) (some "TASK_SKIPPED") s,
  )

  pub held-skip_all :
      (ts : List InternalTask) (s : Scheduler)
      → held h (skip_all ts s) ≡ held h s + count h (handles ts)
  unfolding skip_all count
  held-skip_all [] s = omega arith
  held-skip_all (t ∷ ts) s = ground (arith, held-skip_all ts (skip_task t s), held-skip_task t s)

  pub held-mark_aborted :
      (a : AbortArgument) (s : Scheduler)
      → held h (mark_aborted a s) + count h (handles s.queue) ≡ held h s
  unfolding mark_aborted held count
  held-mark_aborted a s = omega arith

  -- An abort moves the queued tasks to the settled ones.
  pub held-abort : (a : AbortArgument) (s : Scheduler) → held h (abort a s) ≡ held h s
  unfolding abort
  held-abort a s = ground (
    arith,
    held-check_drain (skip_all s.queue (mark_aborted a s)),
    held-skip_all s.queue (mark_aborted a s),
    held-mark_aborted a s,
  )

  pub held-start_task :
      (t : InternalTask) (s : Scheduler) → held h (start_task t s) ≡ held h s + one t.handle
  unfolding start_task emit held
  held-start_task t s =
      ground (arith, handles-append s.in_flight (record t { status = TaskState.running }))

  start_task-queue : (t : InternalTask) (s : Scheduler) → (start_task t s).queue ≡ s.queue
  unfolding start_task emit
  start_task-queue t s = ground arith

  pub held-queue :
      (q : List InternalTask) (s : Scheduler)
      → held h (record s { queue = q }) + count h (handles s.queue) ≡ held h s + count h (handles q)
  unfolding held
  held-queue q s = omega arith

  pub held-pump_loop :
      (ts : List InternalTask) (s : Scheduler)
      → held h (pump_loop ts s) + count h (handles s.queue) ≡ held h s + count h (handles ts)
  unfolding pump_loop
  held-pump_loop [] s = held-queue [] s
  held-pump_loop (t ∷ ts) s = ground (
    arith,
    held-pump_loop ts (start_task t s),
    held-start_task t s,
    ap (λ q. count h (handles q)) (start_task-queue t s),
    held-queue (t ∷ ts) s,
    count-cons h t.handle (handles ts),
  )

  pub held-pump : (s : Scheduler) → held h (pump s) ≡ held h s
  unfolding pump
  held-pump s = ground (arith, held-check_drain (pump_loop s.queue s), held-pump_loop s.queue s)

  pub held-store :
      (t : InternalTask) (v : Settlement) (s : Scheduler) → held h (store t v s) ≡ held h s
  unfolding store held
  held-store t v s = refl

  settles :
      (t : InternalTask) (v w : Settlement) (e : EventType) (st : Option AgentStatus)
      (c : Option String) (s : Scheduler)
      → held h (resolve t v (emit t e st c (store t w s))) ≡ held h s + one t.handle
  settles t v w e st c s = omega (
    arith,
    held-resolve t v (emit t e st c (store t w s)),
    held-emit t e st c (store t w s),
    held-store t w s,
  )

  pub held-settled_returned :
      (t : InternalTask) (v : Returned) (s : Scheduler)
      → held h (settled_returned t v s) ≡ held h s + one t.handle
  unfolding settled_returned
  held-settled_returned t v s = elim (Bool-cases (is_success v)) [
    | inl e ↦ simp e (settles t (value v) (value v) agent_completed _ _ s)
    | inr e ↦ simp e (settles t (value v) (value v) (event_name_for_status (agent_status v)) _ _ s)
  ]

  pub held-settled_threw :
      (t : InternalTask) (n : String) (c : Option String) (s : Scheduler)
      → held h (settled_threw t n c s) ≡ held h s + one t.handle
  unfolding settled_threw
  held-settled_threw t n c s = settles t _ _ _ _ _ s

  maybe_abort :
      (b : Bool) (a : AbortArgument) (u : Scheduler) (k : ℕ)
      → held h u ≡ k
      → held h (if b then abort a u else u) ≡ k
  maybe_abort true a u k e = held-abort a u ∙ e
  maybe_abort false a u k e = e

  pub held-settle :
      (t : InternalTask) (o : Outcome) (s : Scheduler)
      → held h (settle t o s) ≡ held h s + one t.handle
  unfolding settle finish_returned finish_threw
  held-settle t (returned v) s = maybe_abort _ _ _ _ (held-settled_returned t v s)
  held-settle t (threw nullish) s = unfold held in omega (arith, handles-append s.lost t)
  held-settle t (threw (error n c)) s = maybe_abort _ _ _ _ (held-settled_threw t n c s)
