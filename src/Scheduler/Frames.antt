-- ===== src/Scheduler/Frames.antt =====
-- What the parts of the scheduler's methods leave as it is.
use open_dynamic_workflow.Base.{
  ◌≡◌, refl, ap, ◌∙◌, ◌⊎◌, inl, inr, Bool-cases, Bool, true, false, if◌then◌else◌, Option, List, [],
  ◌∷◌, ◌++◌, String, String_eq, remove, arith,
}
use open_dynamic_workflow.Agent.{AgentStatus}
use open_dynamic_workflow.Scheduler.{
  Scheduler, InternalTask, EventType, Settlement, AbortArgument, resolve, emit, skip_task, skip_all,
  mark_aborted, check_drain, pump, pump_loop, abort, Outcome, Returned, returned, threw, nullish,
  error, store, settled_returned, settled_threw, finish_returned, finish_threw, settle,
}

-- The fields that decide which task runs.
pub record Keeps (s t : Scheduler) : Type 0 where
  pub concurrency : t.concurrency ≡ s.concurrency
  pub fail_fast : t.fail_fast ≡ s.fail_fast
  pub queue : t.queue ≡ s.queue
  pub running : t.running ≡ s.running
  pub aborted : t.aborted ≡ s.aborted
  pub in_flight : t.in_flight ≡ s.in_flight
  pub lost : t.lost ≡ s.lost
  pub aborted_signals : t.aborted_signals ≡ s.aborted_signals
  pub pending_pumps : t.pending_pumps ≡ s.pending_pumps
  pub runs : t.runs ≡ s.runs

pub Keeps-refl : (s : Scheduler) → Keeps s s
Keeps-refl s = ground arith

pub Keeps-trans : {s t u : Scheduler} → Keeps s t → Keeps t u → Keeps s u
Keeps-trans p q = ground arith

pub emit-Keeps :
    (t : InternalTask) (e : EventType) (st : Option AgentStatus) (c : Option String) (s : Scheduler)
    → Keeps s (emit t e st c s)
unfolding emit
emit-Keeps t e st c s = ground arith

pub resolve-Keeps : (t : InternalTask) (v : Settlement) (s : Scheduler) → Keeps s (resolve t v s)
unfolding resolve
resolve-Keeps t v s = ground arith

skip_task-Keeps : (t : InternalTask) (s : Scheduler) → Keeps s (skip_task t s)
unfolding skip_task
skip_task-Keeps t s = Keeps-trans (emit-Keeps t _ _ _ s) (resolve-Keeps t _ _)

pub skip_all-Keeps : (ts : List InternalTask) (s : Scheduler) → Keeps s (skip_all ts s)
unfolding skip_all
skip_all-Keeps [] s = Keeps-refl s
skip_all-Keeps (t ∷ ts) s = Keeps-trans (skip_task-Keeps t s) (skip_all-Keeps ts (skip_task t s))

pub check_drain-Keeps : (s : Scheduler) → Keeps s (check_drain s)
unfolding check_drain
check_drain-Keeps s = ground arith

-- An abort that takes effect does to these fields what `mark_aborted` does.
pub abort-Keeps :
    (a : AbortArgument) (s : Scheduler) → s.aborted ≡ false → Keeps (mark_aborted a s) (abort a s)
unfolding abort
abort-Keeps a s e =
    simp e (Keeps-trans (skip_all-Keeps s.queue (mark_aborted a s)) (check_drain-Keeps _))

-- A run that ends leaves the map; one that rejects with null or undefined is lost.
unfoldable pub release : InternalTask → Outcome → Scheduler → Scheduler
release t (threw nullish) s = record s { running = remove t.id s.running; lost = s.lost ++ t ∷ [] }
release t _ s = record s { running = remove t.id s.running }

-- What ends a run is the release, and perhaps an abort.
abbrev pub EndsAs : Scheduler → Scheduler → Type 0
EndsAs m r = (u : Scheduler) × Keeps m u × ((r ≡ u) ⊎ ((a : AbortArgument) × (r ≡ abort a u)))

maybe_abort-EndsAs :
    (m u : Scheduler) (b : Bool) (a : AbortArgument)
    → Keeps m u
    → EndsAs m (if b then abort a u else u)
maybe_abort-EndsAs m u true a k = (u, k, inr (a, refl))
maybe_abort-EndsAs m u false a k = (u, k, inl refl)

pub settled_returned-Keeps :
    (t : InternalTask) (v : Returned) (s : Scheduler)
    → Keeps (release t (returned v) s) (settled_returned t v s)
unfolding settled_returned release store resolve emit
settled_returned-Keeps t v s = ground arith

pub settled_threw-Keeps :
    (t : InternalTask) (n : String) (c : Option String) (s : Scheduler)
    → Keeps (release t (threw (error n c)) s) (settled_threw t n c s)
unfolding settled_threw release store resolve emit
settled_threw-Keeps t n c s = ground arith

pub settle-EndsAs :
    (t : InternalTask) (o : Outcome) (s : Scheduler) → EndsAs (release t o s) (settle t o s)
unfolding settle finish_returned finish_threw
settle-EndsAs t (returned v) s = maybe_abort-EndsAs _ _ _ _ (settled_returned-Keeps t v s)
settle-EndsAs t (threw nullish) s = (_, Keeps-refl _, inl (unfold release in refl))
settle-EndsAs t (threw (error n c)) s = maybe_abort-EndsAs _ _ _ _ (settled_threw-Keeps t n c s)

pub abort_again : (a : AbortArgument) (s : Scheduler) → s.aborted ≡ true → abort a s ≡ s
unfolding abort
abort_again a s e = simp e

pub pump_aborted : (s : Scheduler) → s.aborted ≡ true → pump s ≡ s
unfolding pump
pump_aborted s e = simp e

pub pump_live : (s : Scheduler) → s.aborted ≡ false → pump s ≡ check_drain (pump_loop s.queue s)
unfolding pump
pump_live s e = simp e

pub abort_stops : (a : AbortArgument) (s : Scheduler) → (abort a s).aborted ≡ true
unfolding mark_aborted
abort_stops a s = elim (Bool-cases s.aborted) [
  | inl e ↦ ap (λ r. r.aborted) (abort_again a s e) ∙ e
  | inr e ↦ let k = abort-Keeps a s e in k.aborted
]

pub abort_first :
    (a : AbortArgument) (s : Scheduler)
    → s.aborted ≡ false
    → abort a s ≡ check_drain (skip_all s.queue (mark_aborted a s))
unfolding abort
abort_first a s e = simp e
