-- ===== src/Scheduler/Aborts.antt =====
-- What an abort does, and when the end of a run causes one.
use open_dynamic_workflow.Base.{
  ℕ, ◌≡◌, refl, sym, ap, ◌∙◌, ◌⊎◌, inl, inr, true, false, not, ◌&&◌, Bool-cases, some, List, [],
  ◌∷◌, ◌++◌, append_assoc, append-nil, map, arith, if_true, if_false,
}
use open_dynamic_workflow.Agent.{AbortReason}
use open_dynamic_workflow.Scheduler.{
  Scheduler, InternalTask, AbortArgument, Outcome, returned, threw, nullish, error, Settlement,
  skip, skip_message, normalize_reason, is_success, fails_fast, running_handles, resolve, emit,
  skip_task, skip_all, mark_aborted, check_drain, abort, pump_loop, pump, finish_returned,
  finish_threw, settle, finish,
}
use open_dynamic_workflow.Scheduler.Frames.{
  abort-Keeps, abort_stops, abort_first, abort_again, check_drain-Keeps, release, EndsAs,
  settle-EndsAs, pump_aborted, pump_live, settled_returned-Keeps, settled_threw-Keeps,
}
use open_dynamic_workflow.Scheduler.Order.{pump_loop-aborted}
use open_dynamic_workflow.Scheduler.Bounds.{IsBounded, settle-IsBounded}

abbrev pub skipped_by : AbortReason → InternalTask → ℕ × Settlement
skipped_by r t = (t.handle, skip (skip_message (some r)))

skip_task-settled :
    (r : AbortReason) (t : InternalTask) (s : Scheduler)
    → s.abort_reason ≡ some r
    → ((skip_task t s).abort_reason ≡ some r)
      × ((skip_task t s).settled ≡ s.settled ++ skipped_by r t ∷ [])
unfolding skip_task resolve emit
skip_task-settled r t s e = ground arith

skip_all-settled :
    (r : AbortReason) (ts : List InternalTask) (s : Scheduler)
    → s.abort_reason ≡ some r
    → ((skip_all ts s).abort_reason ≡ some r)
      × ((skip_all ts s).settled ≡ s.settled ++ map (skipped_by r) ts)
unfolding skip_all
skip_all-settled r [] s e = (e, sym (append-nil s.settled))
skip_all-settled r (t ∷ ts) s e =
    let (e', f) = skip_task-settled r t s e in
    let (e'', g) = skip_all-settled r ts (skip_task t s) e' in
    (
      e'',
      g
          ∙ ap (λ l. l ++ map (skipped_by r) ts) f
          ∙ append_assoc s.settled (skipped_by r t ∷ []) (map (skipped_by r) ts),
    )

check_drain-settled :
    (s : Scheduler)
    → ((check_drain s).settled ≡ s.settled) × ((check_drain s).abort_reason ≡ s.abort_reason)
unfolding check_drain
check_drain-settled s = ground arith

-- The first abort records its reason, aborts the signal of each running task, leaves the running
-- tasks to end, empties the queue, and resolves the promises of the queued tasks in their order,
-- as skipped with the reason's message.
pub abort_lem :
    (a : AbortArgument) (s : Scheduler)
    → s.aborted ≡ false
    → let t = abort a s in
      (t.aborted ≡ true)
      × (t.abort_reason ≡ some (normalize_reason a))
      × (t.queue ≡ [])
      × (t.running ≡ s.running)
      × (t.in_flight ≡ s.in_flight)
      × (t.aborted_signals ≡ s.aborted_signals ++ running_handles s.running)
      × (t.settled ≡ s.settled ++ map (skipped_by (normalize_reason a)) s.queue)
unfolding mark_aborted
abort_lem a s e =
    let k = abort-Keeps a s e in
    let (r, f) = skip_all-settled (normalize_reason a) s.queue (mark_aborted a s) refl in
    let (d, d') = check_drain-settled (skip_all s.queue (mark_aborted a s)) in
    let u : abort a s ≡ check_drain (skip_all s.queue (mark_aborted a s)) = abort_first a s e in
    (
      k.aborted,
      ap (λ (t : Scheduler). t.abort_reason) u ∙ d' ∙ r,
      k.queue,
      k.running,
      k.in_flight,
      k.aborted_signals,
      ap (λ (t : Scheduler). t.settled) u ∙ d ∙ f,
    )

-- A second abort changes nothing, its reason included.
pub abort-abort : (a b : AbortArgument) (s : Scheduler) → abort b (abort a s) ≡ abort a s
abort-abort a b s = abort_again b (abort a s) (abort_stops a s)

-- A result whose field `ok` is false, or a rejection with anything but null or undefined.
abbrev pub Fails : Outcome → Type 0
Fails (returned v) = is_success v ≡ false
Fails (threw nullish) = ⊥
Fails (threw (error n c)) = Unit

settle-aborts :
    (t : InternalTask) (o : Outcome) (s : Scheduler)
    → fails_fast t s ≡ true
    → Fails o
    → (settle t o s).aborted ≡ true
unfolding settle finish_returned finish_threw
settle-aborts t (returned v) s f h =
    ap (λ (r : Scheduler). r.aborted)
      (if_true (not (is_success v) && fails_fast t s) _ _ (ground arith))
    ∙ abort_stops _ _
settle-aborts t (threw nullish) s f h = absurd h
settle-aborts t (threw (error n c)) s f h =
    ap (λ (r : Scheduler). r.aborted) (if_true (fails_fast t s) _ _ f) ∙ abort_stops _ _

abort-runs : (a : AbortArgument) (s : Scheduler) → (abort a s).runs ≡ s.runs
unfolding mark_aborted
abort-runs a s = elim (Bool-cases s.aborted) [
  | inl e ↦ ap (λ (r : Scheduler). r.runs) (abort_again a s e)
  | inr e ↦ let k = abort-Keeps a s e in k.runs
]

release-rest : (t : InternalTask) (o : Outcome) (s : Scheduler) → (release t o s).runs ≡ s.runs
unfolding release
release-rest t (returned v) s = refl
release-rest t (threw nullish) s = refl
release-rest t (threw (error n c)) s = refl

EndsAs-runs : {m r : Scheduler} → EndsAs m r → r.runs ≡ m.runs
EndsAs-runs (u, k, inl e) = ap (λ (r : Scheduler). r.runs) e ∙ k.runs
EndsAs-runs (u, k, inr (a, e)) = ap (λ (r : Scheduler). r.runs) e ∙ abort-runs a u ∙ k.runs

settle-runs : (t : InternalTask) (o : Outcome) (s : Scheduler) → (settle t o s).runs ≡ s.runs
settle-runs t o s = EndsAs-runs (settle-EndsAs t o s) ∙ release-rest t o s

-- What causes no abort.
abbrev pub IsHarmless : InternalTask → Outcome → Scheduler → Type 0
IsHarmless t (returned v) s = (fails_fast t s ≡ false) ⊎ (is_success v ≡ true)
IsHarmless t (threw e) s = fails_fast t s ≡ false

settle-harmless :
    (t : InternalTask) (o : Outcome) (s : Scheduler)
    → IsHarmless t o s
    → (settle t o s).aborted ≡ s.aborted
unfolding settle finish_returned finish_threw
settle-harmless t (returned v) s h =
    let k = settled_returned-Keeps t v s in
    ap (λ (r : Scheduler). r.aborted)
      (if_false (not (is_success v) && fails_fast t s) _ _ (ground arith))
    ∙ k.aborted
    ∙ (unfold release in refl)
settle-harmless t (threw nullish) s h = refl
settle-harmless t (threw (error n c)) s h =
    let k = settled_threw-Keeps t n c s in
    ap (λ (r : Scheduler). r.aborted) (if_false (fails_fast t s) _ _ h)
    ∙ k.aborted
    ∙ (unfold release in refl)

pump-keeps_aborted : (s : Scheduler) → (pump s).aborted ≡ s.aborted
pump-keeps_aborted s = elim (Bool-cases s.aborted) [
  | inl e ↦ ap (λ (r : Scheduler). r.aborted) (pump_aborted s e)
  | inr e ↦
      let k = check_drain-Keeps (pump_loop s.queue s) in
      ap (λ (r : Scheduler). r.aborted) (pump_live s e) ∙ k.aborted ∙ pump_loop-aborted s.queue s
]

-- Without fail-fast the end of a run aborts nothing, and neither does a success.
pub finish-harmless :
    (t : InternalTask) (o : Outcome) (s : Scheduler)
    → IsHarmless t o s
    → (finish t o s).aborted ≡ s.aborted
unfolding finish
finish-harmless t o s h =
    let k = check_drain-Keeps (pump (settle t o s)) in
    k.aborted ∙ pump-keeps_aborted (settle t o s) ∙ settle-harmless t o s h

-- A run that rejects with null or undefined aborts nothing, under fail-fast or not.
finish_nullish :
    (t : InternalTask) (s : Scheduler) → (finish t (threw nullish) s).aborted ≡ s.aborted
unfolding finish settle finish_threw
finish_nullish t s =
    let k = check_drain-Keeps (pump (settle t (threw nullish) s)) in
    k.aborted ∙ pump-keeps_aborted (settle t (threw nullish) s)

-- Under fail-fast, of the scheduler or of the task and not deferred, the end of a run that gives
-- a result that is not ok, or that rejects with anything but null or undefined, leaves the
-- scheduler aborted with an empty queue, and starts no other run; the end of one that rejects
-- with null or undefined, which makes the catch block itself throw, aborts nothing.
pub finish_fail_fast :
    (t : InternalTask) (o : Outcome) {n : ℕ} (s : Scheduler)
    → IsBounded n s
    → fails_fast t s ≡ true
    → Fails o
    → let r = finish t o s in
      (r.aborted ≡ true)
      × (r.queue ≡ [])
      × (r.runs ≡ s.runs)
      × ((finish t (threw nullish) s).aborted ≡ s.aborted)
unfolding finish
finish_fail_fast t o s b f h =
    let k = check_drain-Keeps (pump (settle t o s)) in
    let e = settle-aborts t o s f h in
    let p = pump_aborted (settle t o s) e in
    let i = settle-IsBounded t o s b in
    (
      k.aborted ∙ ap (λ (r : Scheduler). r.aborted) p ∙ e,
      k.queue ∙ ap (λ (r : Scheduler). r.queue) p ∙ i.stopped e,
      k.runs ∙ ap (λ (r : Scheduler). r.runs) p ∙ settle-runs t o s,
      finish_nullish t s,
    )
