-- ===== src/ToolLimiter.antt =====
-- orchestration/tool-limiter.ts, `ToolLimiter`. A waiting call has a handle, which stands for its
-- promise and for the release function that it resolves with.
pub mod Bounds
pub mod Order
mod Examples
use open_dynamic_workflow.Base.{
  ℕ, ℕ_eq, suc, ◌+◌, ◌-◌, ◌==◌, Bool, true, false, not, ◌||◌, Option, none, some, List, [], ◌∷◌,
  ◌++◌, ltb, if◌then◌else◌, filter, map,
}

pub record Waiter : Type 0 where
  pub handle : ℕ
  pub signal : ℕ

-- The fields of the limiter, and of its environment: the signals that are aborted, the handles of
-- the calls that were let in, in that order, those that have not released yet, and those rejected.
pub record ToolLimiter : Type 0 where
  pub limit : ℕ
  pub active_count : ℕ
  pub queue : List Waiter
  pub aborted : List ℕ
  pub granted : List ℕ
  pub held : List ℕ
  pub rejected : List ℕ

abbrev pub init : ℕ → ToolLimiter
init limit = record {
  limit = limit;
  active_count = 0;
  queue = [];
  aborted = [];
  granted = [];
  held = [];
  rejected = [];
}

-- The constructor: none if it throws.
unfoldable pub new : ℕ → Option ToolLimiter
new limit = if limit == 0 then none else some (init limit)

unfoldable pub has : ℕ → List ℕ → Bool
has n [] = false
has n (m ∷ ms) = m == n || has n ms

unfoldable pub drop_one : ℕ → List ℕ → List ℕ
drop_one n [] = []
drop_one n (m ∷ ms) = let rest = drop_one n ms in if m == n then ms else m ∷ rest

-- `activeCount++` and a new release function, which the promise resolves with.
abbrev pub grant : ℕ → ToolLimiter → ToolLimiter
grant handle s = record s {
  active_count = s.active_count + 1;
  granted = s.granted ++ handle ∷ [];
  held = handle ∷ s.held;
}

unfoldable pub acquire : ℕ → ℕ → ToolLimiter → ToolLimiter
unfolding has
acquire handle signal s =
    if has signal s.aborted
    then record s { rejected = s.rejected ++ handle ∷ [] }
    else if ltb s.active_count s.limit
    then grant handle s
    else record s { queue = s.queue ++ record { handle = handle; signal = signal } ∷ [] }

-- The loop of `pump`, by the queue.
unfoldable pub pump_loop : List Waiter → ToolLimiter → ToolLimiter
pump_loop [] s = record s { queue = [] }
pump_loop (w ∷ ws) s =
    let skipped = pump_loop ws s in
    let resolved = pump_loop ws (grant w.handle s) in
    if ltb s.active_count s.limit
    then (if has w.signal s.aborted then skipped else resolved)
    else record s { queue = w ∷ ws }

unfoldable pub pump : ToolLimiter → ToolLimiter
unfolding pump_loop
pump s = pump_loop s.queue s

-- The release function of a call; once it has run it does nothing.
unfoldable pub release : ℕ → ToolLimiter → ToolLimiter
unfolding pump
release handle s =
    if has handle s.held
    then pump record s { held = drop_one handle s.held; active_count = s.active_count - 1 }
    else s

abbrev pub waits_on : ℕ → Waiter → Bool
waits_on signal w = w.signal == signal

-- The signal is aborted: the listener of each call that waits with it takes the call out of the
-- queue and rejects its promise, in the order in which they were added.
unfoldable pub abort_signal : ℕ → ToolLimiter → ToolLimiter
abort_signal signal s = record s {
  aborted = signal ∷ s.aborted;
  queue = filter (λ w. not (waits_on signal w)) s.queue;
  rejected = s.rejected ++ map (λ w. w.handle) (filter (waits_on signal) s.queue);
}

pub data Call : Type 0 where
  acquires : (handle signal : ℕ) → Call
  releases aborts : ℕ → Call

unfoldable pub step : Call → ToolLimiter → ToolLimiter
unfolding acquire release abort_signal
step (acquires handle signal) s = acquire handle signal s
step (releases handle) s = release handle s
step (aborts signal) s = abort_signal signal s

unfoldable pub run : List Call → ToolLimiter → ToolLimiter
unfolding step
run [] s = s
run (c ∷ cs) s = run cs (step c s)
