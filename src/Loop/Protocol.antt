-- ===== src/Loop/Protocol.antt =====
-- The records and the events of the rounds of a loop: what they are to be, and the end of one round.
pub mod Steps
use open_dynamic_workflow.Base.{
  ℕ, zero, suc, ◌+◌, ◌≤◌, ◌<◌, ◌≡◌, ◌≢◌, refl, sym, ap, ◌∙◌, Bool, true, false, Option, none, some,
  List, [], ◌∷◌, ◌++◌, append_assoc, append-nil, length, Result, ok, err, if◌then◌else◌, ◌==◌, ℕ_eq,
  if_intro, Bool-cases, inl, inr, arith,
}
use open_dynamic_workflow.Context.Json.{JsValue}
use open_dynamic_workflow.Workflow.Json.{Clone, as_value, clone_recursive}
use open_dynamic_workflow.Workflow.Json.Laws.{HasNoProto}
use open_dynamic_workflow.Loop.Data.{
  LoopStatus, LoopRoundStatus, Thrown, nullish, falsy, error, LoopError, thrown, Abort, live,
  parent_aborted, timed_out, LoopRoundRecord, Event, round_started, terminal_round_event_type,
  LoopRunResult, validate_loop_run_result, InvalidRunResult, state_not_json,
}
use open_dynamic_workflow.Loop.Rounds.{
  Outcome, returned, rejected, Meets, Progress, Ended, ended, escaped, abort_status, loop_status,
  thrown_status, catch_status, fail_round, complete_round, after_round, finish_round, invalid,
  caught, settle_round, call_run, start_round, round, run_rounds,
}

-- A round that is completed goes on with its next state; with another status there is none, and it is the
-- last one.
abbrev pub Goes : LoopRoundStatus → Option Clone → (Clone → Type 0) → Type 0 → Type 0
Goes LoopRoundStatus.completed (some next) on end = on next
Goes LoopRoundStatus.completed none on end = ⊥
Goes status (some next) on end = ⊥
Goes status none on end = end

-- The rounds from index `i` on and from state `s` to `t`: they are numbered, each begins with the state that
-- the one before ended with, and only the last may be one that is not completed, which leaves the state
-- as it was.
abbrev pub Threads : ℕ → Clone → List LoopRoundRecord → Clone → Type 0
Threads i s [] t = t ≡ s
Threads i s (r ∷ rs) t =
    (r.index ≡ i)
    × (r.round_number ≡ i + 1)
    × (r.input_state ≡ s)
    × Goes r.status r.next_state (λ next. Threads (i + 1) next rs t) ((rs ≡ []) × (t ≡ s))

-- The events of the rounds: the start and the end of each.
abbrev pub round_events : List LoopRoundRecord → List Event
round_events [] = []
round_events (r ∷ rs) =
    round_started r.round_number
    ∷ terminal_round_event_type r.status r.round_number
    ∷ round_events rs

-- The state is its own clone.
abbrev pub IsStable : Clone → Type 0
IsStable s = clone_recursive (as_value s) ≡ some s

-- What the rounds from `p` to `q` have added, and that they end with a status.
pub record Through (i left : ℕ) (p q : Progress) (status : Option LoopStatus) : Type 0 where
  pub added : List LoopRoundRecord
  pub rounds : q.rounds ≡ p.rounds ++ added
  pub events : q.events ≡ p.events ++ round_events added
  pub threads : Threads i p.current_state added q.current_state
  pub bound : length added ≤ left
  pub settled : (s : LoopStatus) × (status ≡ some s)
  pub stable : IsStable q.current_state

abbrev pub Sound : ℕ → ℕ → Progress → Ended → Type 0
Sound i left p (ended q status loop_error round_error) = Through i left p q status
Sound i left p (escaped q e) = ⊥

-- No callback rejects with null or undefined.
abbrev pub RejectsWithSomething : (ℕ → Meets) → Type 0
RejectsWithSomething meets = (n : ℕ) (s : Clone) → (meets n).run s ≢ rejected nullish

-- The next state of a result has no own key `__proto__`, and if it is JSON, the result can be copied.
abbrev pub IsCopied : JsValue → LoopRunResult → Type 0
IsCopied v r =
    HasNoProto r.next_state
    × ((next : Clone)
        → clone_recursive r.next_state ≡ some next
        → (copy : Clone) × (clone_recursive v ≡ some copy))

-- So are the results of the callbacks that pass the validation.
abbrev pub ReturnsCopied : (ℕ → Meets) → Type 0
ReturnsCopied meets =
    (n : ℕ) (s : Clone) (v : JsValue) (r : LoopRunResult)
    → (meets n).run s ≡ returned v
    → validate_loop_run_result v ≡ ok r
    → IsCopied v r

pub nothing_added :
    (i left : ℕ) (q : Progress) (s : LoopStatus)
    → IsStable q.current_state
    → Through i left q q (some s)
nothing_added i left q s stable = record {
  stable = stable;
  added = [];
  rounds = sym (append-nil q.rounds);
  events = sym (append-nil q.events);
  threads = refl;
  bound = omega arith;
  settled = (s, refl);
}

append_two {ℓ} :
    {A : Type ℓ} (xs : List A) (a b : A) (ys : List A)
    → ((xs ++ a ∷ []) ++ b ∷ []) ++ ys ≡ xs ++ a ∷ b ∷ ys
append_two xs a b ys = append_assoc (xs ++ a ∷ []) (b ∷ []) ys ∙ append_assoc xs (a ∷ []) (b ∷ ys)

pub cancelled_ends : LoopRoundStatus.cancelled ≢ LoopRoundStatus.completed
cancelled_ends k = cc

pub timed_out_ends : LoopRoundStatus.timed_out ≢ LoopRoundStatus.completed
timed_out_ends k = cc

pub failed_ends : LoopRoundStatus.failed ≢ LoopRoundStatus.completed
failed_ends k = cc

module _ (max_rounds : ℕ) (m : Meets) (i left : ℕ) (p : Progress) where
  pub fail_round-Sound :
      (status : LoopRoundStatus) (e : LoopError)
      → IsStable p.current_state
      → status ≢ LoopRoundStatus.completed
      → Sound i (suc left) p (fail_round max_rounds m i p.current_state (start_round i p) status e)
  fail_round-Sound status e stable h = record {
    stable = stable;
    added =
        record {
          index = i;
          round_number = i + 1;
          status = status;
          input_state = p.current_state;
          next_state = none;
          duration_ms = m.duration_ms;
          error = some e;
          nested_calls = m.nested_calls;
        }
        ∷ [];
    rounds = refl;
    events = append_assoc p.events _ _;
    threads = (refl, refl, refl, last status h);
    bound = omega arith;
    settled = (loop_status status, refl);
  }
    where
      last :
          (t : LoopRoundStatus)
          → t ≢ LoopRoundStatus.completed
          → Goes t none
              (λ next. Threads (i + 1) next [] p.current_state)
              (((◌≡◌ {A = List LoopRoundRecord} [] [])) × (p.current_state ≡ p.current_state))
      last LoopRoundStatus.completed k = absurd (k refl)
      last LoopRoundStatus.failed k = (refl, refl)
      last LoopRoundStatus.cancelled k = (refl, refl)
      last LoopRoundStatus.timed_out k = (refl, refl)

  -- A completed round, and the rounds that follow it.
  pub complete_round-Through :
      (next : Clone) (q : Progress) (status : Option LoopStatus)
      → Through
          (i + 1)
          left
          (complete_round max_rounds m i p.current_state (start_round i p) next)
          q
          status
      → Through i (suc left) p q status
  complete_round-Through next q status t = record {
    added =
        record {
          index = i;
          round_number = i + 1;
          status = LoopRoundStatus.completed;
          input_state = p.current_state;
          next_state = some next;
          duration_ms = m.duration_ms;
          error = none;
          nested_calls = m.nested_calls;
        }
        ∷ t.added;
    rounds = t.rounds ∙ append_assoc p.rounds _ _;
    events = t.events ∙ append_two p.events _ _ _;
    threads = (refl, refl, refl, t.threads);
    bound = omega (arith, t.bound);
    settled = t.settled;
    stable = t.stable;
  }
