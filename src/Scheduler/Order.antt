-- ===== src/Scheduler/Order.antt =====
-- The order in which runs start, and that none starts after an abort.
use open_dynamic_workflow.Base.{
  ℕ, zero, suc, ◌≡◌, refl, sym, ap, subst, ◌∙◌, inl, inr, Bool, true, false, Bool-cases, Option,
  none, some, List, [], ◌∷◌, ◌++◌, append-nil, append_assoc, arith,
}
use mathlib.Core.List.{map-append}
use open_dynamic_workflow.Scheduler.{
  Scheduler, InternalTask, Call, schedules, aborts, drains, ticks, ends, times_out, AbortArgument,
  Outcome, returned, threw, nullish, error, init, handles, resolve, emit, abort, schedule, drain,
  start_task, pump_loop, pump, finish, find_run, drop_run, tick, end_run, time_out, step, run,
}
use open_dynamic_workflow.Scheduler.Frames.{
  Keeps, check_drain-Keeps, release, EndsAs, settle-EndsAs, abort_stops, abort_again, pump_aborted,
  pump_live,
}
use open_dynamic_workflow.Scheduler.Conservation.{submitted, submitted_by}

-- The runs that started, then the tasks that wait.
abbrev line : Scheduler → List ℕ
line s = s.runs ++ handles s.queue

-- `t` comes after `s`: an abort stays and no run starts after it; without one the line only grows
-- by the new tasks.
record Follows (new : List ℕ) (s t : Scheduler) : Type 0 where
  stays : s.aborted ≡ true → t.aborted ≡ true
  stops : s.aborted ≡ true → t.runs ≡ s.runs
  grows : t.aborted ≡ false → line t ≡ line s ++ new

Follows-refl : (s : Scheduler) → Follows [] s s
Follows-refl s = record {
  stays = λ e. e;
  stops = λ _. refl;
  grows = λ _. sym (append-nil (line s));
}

Keeps-Follows : {s t : Scheduler} → Keeps s t → Follows [] s t
Keeps-Follows {s} {t} k = record {
  stays = λ e. k.aborted ∙ e;
  stops = λ _. k.runs;
  grows = λ _. ground (arith, append-nil (line s));
}

not_aborted :
    {new : List ℕ} {s t : Scheduler} → Follows new s t → t.aborted ≡ false → s.aborted ≡ false
not_aborted f e = ground (arith, Bool-cases _)

Follows-trans :
    {m n : List ℕ} {s t u : Scheduler} → Follows m s t → Follows n t u → Follows (m ++ n) s u
Follows-trans {m} {n} {s} {t} {u} f g = record {
  stays = λ e. g.stays (f.stays e);
  stops = λ e. g.stops (f.stays e) ∙ f.stops e;
  grows = λ e. g.grows e ∙ ap (λ l. l ++ n) (f.grows (not_aborted g e)) ∙ append_assoc (line s) m n;
}

abort-Follows : (a : AbortArgument) (s : Scheduler) → Follows [] s (abort a s)
abort-Follows a s = elim (Bool-cases s.aborted) [
  | inl e ↦ subst (Follows [] s) (sym (abort_again a s e)) (Follows-refl s)
  | inr e ↦ record { stays = λ x. cc; stops = λ x. cc; grows = λ x. cc (abort_stops a s) }
]

pump_loop-line :
    (ts : List InternalTask) (s : Scheduler) → line (pump_loop ts s) ≡ s.runs ++ handles ts
unfolding pump_loop start_task emit
pump_loop-line [] s = refl
pump_loop-line (t ∷ ts) s =
    ground
      (arith, pump_loop-line ts (start_task t s), append_assoc s.runs (t.handle ∷ []) (handles ts))

pub pump_loop-aborted :
    (ts : List InternalTask) (s : Scheduler) → (pump_loop ts s).aborted ≡ s.aborted
unfolding pump_loop start_task emit
pump_loop-aborted [] s = refl
pump_loop-aborted (t ∷ ts) s = ground (arith, pump_loop-aborted ts (start_task t s))

pump_loop-Follows : (s : Scheduler) → s.aborted ≡ false → Follows [] s (pump_loop s.queue s)
pump_loop-Follows s e = record {
  stays = λ x. cc;
  stops = λ x. cc;
  grows = λ _. pump_loop-line s.queue s ∙ sym (append-nil (line s));
}

pump-Follows : (s : Scheduler) → Follows [] s (pump s)
pump-Follows s = elim (Bool-cases s.aborted) [
  | inl e ↦ subst (Follows [] s) (sym (pump_aborted s e)) (Follows-refl s)
  | inr e ↦
      subst (Follows [] s) (sym (pump_live s e))
        (Follows-trans (pump_loop-Follows s e) (Keeps-Follows (check_drain-Keeps _)))
]

release-Follows : (t : InternalTask) (o : Outcome) (s : Scheduler) → Follows [] s (release t o s)
unfolding release
release-Follows t (returned v) s = ground (arith, append-nil (line s))
release-Follows t (threw nullish) s = ground (arith, append-nil (line s))
release-Follows t (threw (error n c)) s = ground (arith, append-nil (line s))

EndsAs-Follows : {m r : Scheduler} → EndsAs m r → Follows [] m r
EndsAs-Follows {m} (u, k, inl e) = subst (Follows [] m) (sym e) (Keeps-Follows k)
EndsAs-Follows {m} (u, k, inr (a, e)) =
    subst (Follows [] m) (sym e) (Follows-trans (Keeps-Follows k) (abort-Follows a u))

finish-Follows : (t : InternalTask) (o : Outcome) (s : Scheduler) → Follows [] s (finish t o s)
unfolding finish
finish-Follows t o s = Follows-trans (release-Follows t o s) (
    Follows-trans (EndsAs-Follows (settle-EndsAs t o s))
      (Follows-trans (pump-Follows _) (Keeps-Follows (check_drain-Keeps _))))

end_run-Follows :
    (r : Option InternalTask) (o : Outcome) (s : Scheduler) → Follows [] s (end_run r o s)
unfolding end_run
end_run-Follows none o s = Follows-refl s
end_run-Follows (some t) o s =
    let f = finish-Follows t o (record s { in_flight = drop_run t.handle s.in_flight }) in
    record { stays = f.stays; stops = f.stops; grows = f.grows }

tick-Follows : (k : ℕ) (s : Scheduler) → Follows [] s (tick k s)
unfolding tick
tick-Follows zero s = Follows-refl s
tick-Follows (suc k) s =
    let f = pump-Follows (record s { pending_pumps = k }) in
    record { stays = f.stays; stops = f.stops; grows = f.grows }

schedule-Follows : (t : InternalTask) (s : Scheduler) → Follows (t.handle ∷ []) s (schedule t s)
unfolding schedule resolve emit
schedule-Follows t s = ground (
  arith,
  map-append (λ (x : InternalTask). x.handle) s.queue (t ∷ []),
  append_assoc s.runs (handles s.queue) (t.handle ∷ []),
)

drain-Follows : (w : ℕ) (s : Scheduler) → Follows [] s (drain w s)
unfolding drain
drain-Follows w s = ground (arith, append-nil (line s))

time_out-Follows : (k : ℕ) (s : Scheduler) → Follows [] s (time_out k s)
unfolding time_out
time_out-Follows k s = ground (arith, append-nil (line s))

step-Follows : (c : Call) (s : Scheduler) → Follows (submitted_by c) s (step c s)
unfolding step
step-Follows (schedules t) s = schedule-Follows t s
step-Follows (aborts a) s = abort-Follows a s
step-Follows (drains w) s = drain-Follows w s
step-Follows ticks s = tick-Follows s.pending_pumps s
step-Follows (ends k o) s = end_run-Follows (find_run k s.in_flight) o s
step-Follows (times_out k) s = time_out-Follows k s

run-Follows : (cs : List Call) (s : Scheduler) → Follows (submitted cs) s (run cs s)
unfolding run
run-Follows [] s = Follows-refl s
run-Follows (c ∷ cs) s = Follows-trans (step-Follows c s) (run-Follows cs (step c s))

-- As long as nobody aborts the scheduler, the runs that have started and then the tasks that wait
-- are the scheduled tasks in the order of the calls: first in, first out, none left out.
pub run-init-order :
    (n : ℕ) (fail_fast sink : Bool) (cs : List Call)
    → let s = run cs (init n fail_fast sink) in
      s.aborted ≡ false → s.runs ++ handles s.queue ≡ submitted cs
run-init-order n fail_fast sink cs e =
    (run-Follows cs (init n fail_fast sink)).grows e ∙ (unfold init in refl)

-- Once it is aborted it stays so, and no call makes another run start.
pub run_aborted :
    (cs : List Call) (s : Scheduler)
    → s.aborted ≡ true
    → ((run cs s).aborted ≡ true) × ((run cs s).runs ≡ s.runs)
run_aborted cs s e = let f = run-Follows cs s in (f.stays e, f.stops e)
