-- ===== src/ToolLimiter/Bounds.antt =====
-- How many calls are let in at a time.
use open_dynamic_workflow.Base.{
  ℕ, ℕ_eq, suc, ◌≤◌, ◌≡◌, refl, ap, true, false, not, List, [], ◌∷◌, ◌++◌, length, All, All-append,
  filter, if_then, if_else, Bool-cases, if_intro_when, if◌then◌else◌, ltb, arith, ◌⊎◌, inl, inr,
}
use open_dynamic_workflow.ToolLimiter.{
  ToolLimiter, Waiter, init, has, drop_one, grant, acquire, pump_loop, pump, release, abort_signal,
  waits_on, Call, acquires, releases, aborts, step, run,
}

-- The count is that of the calls that have not released, at most the limit; a call waits only
-- while all places are taken, and none waits whose signal is aborted.
pub record Inv (s : ToolLimiter) : Type 0 where
  pub positive : 1 ≤ s.limit
  pub counted : s.active_count ≡ length s.held
  pub bounded : s.active_count ≤ s.limit
  pub busy : (s.queue ≡ []) ⊎ (s.active_count ≡ s.limit)
  pub live : All (λ w. has w.signal s.aborted ≡ false) s.queue

length-drop_one : (n : ℕ) (ms : List ℕ) → has n ms ≡ true → suc (length (drop_one n ms)) ≡ length ms
unfolding has drop_one
length-drop_one n [] h = cc
length-drop_one n (m ∷ ms) h = ground (arith, h, length-drop_one n ms)

pump_loop-Inv :
    (ws : List Waiter) (s : ToolLimiter)
    → 1 ≤ s.limit
    → s.active_count ≡ length s.held
    → s.active_count ≤ s.limit
    → All (λ w. has w.signal s.aborted ≡ false) ws
    → Inv (pump_loop ws s)
unfolding pump_loop
pump_loop-Inv [] s p c b l = record {
  positive = p;
  counted = c;
  bounded = b;
  busy = inl refl;
  live = tt;
}
pump_loop-Inv (w ∷ ws) s p c b l = elim (Bool-cases (ltb s.active_count s.limit)) [
  | inl lt ↦ if_then Inv (ltb s.active_count s.limit) _ _ lt (
      if_else Inv (has w.signal s.aborted) _ _ l.0
        (pump_loop-Inv ws (grant w.handle s) p (omega (arith, c)) (ground (arith, lt)) l.1))
  | inr ge ↦ if_else Inv (ltb s.active_count s.limit) _ _ ge record {
    positive = p;
    counted = c;
    bounded = b;
    busy = inr (ground (arith, ge, b));
    live = l;
  }
]

-- With a place left, the queue is empty.
pub idle_lem : (s : ToolLimiter) → Inv s → ltb s.active_count s.limit ≡ true → s.queue ≡ []
idle_lem s i lt = elim i.busy [ inl e ↦ e | inr e ↦ absurd (ground (arith, lt, e)) ]

-- The branch of a signal that is not aborted.
waiting-Inv :
    (h g : ℕ) (s : ToolLimiter)
    → Inv s
    → has g s.aborted ≡ false
    → Inv (
        if ltb s.active_count s.limit
        then grant h s
        else record s { queue = s.queue ++ record { handle = h; signal = g } ∷ [] })
waiting-Inv h g s i l = elim (Bool-cases (ltb s.active_count s.limit)) [
  | inl lt ↦ if_then Inv (ltb s.active_count s.limit) _ _ lt record {
    positive = i.positive;
    counted = omega (arith, i.counted);
    bounded = ground (arith, lt);
    busy = inl (idle_lem s i lt);
    live = i.live;
  }
  | inr ge ↦ if_else Inv (ltb s.active_count s.limit) _ _ ge record {
    positive = i.positive;
    counted = i.counted;
    bounded = i.bounded;
    busy = inr (ground (arith, ge, i.bounded));
    live = All-append (λ w. has w.signal s.aborted ≡ false) s.queue _ i.live (l, tt);
  }
]

acquire-Inv : (h g : ℕ) (s : ToolLimiter) → Inv s → Inv (acquire h g s)
unfolding acquire
acquire-Inv h g s i = elim (Bool-cases (has g s.aborted)) [
  | inl dead ↦ if_then Inv (has g s.aborted) _ _ dead record {
    positive = i.positive;
    counted = i.counted;
    bounded = i.bounded;
    busy = i.busy;
    live = i.live;
  }
  | inr l ↦ if_else Inv (has g s.aborted) _ _ l (waiting-Inv h g s i l)
]

release-Inv : (h : ℕ) (s : ToolLimiter) → Inv s → Inv (release h s)
unfolding release pump
release-Inv h s i =
    if_intro_when Inv (has h s.held)
      (λ held.
        pump_loop-Inv s.queue _ i.positive (omega (arith, i.counted, length-drop_one h s.held held))
          (omega (arith, i.bounded)) i.live)
      i

other_signal :
    (g : ℕ) (aborted : List ℕ) (w : Waiter)
    → not (waits_on g w) ≡ true
    → has w.signal aborted ≡ false
    → has w.signal (g ∷ aborted) ≡ false
unfolding has
other_signal g aborted w other l = ground (arith, other, l)

-- Aborting one more signal leaves those that wait with another one alive.
live-filter :
    (g : ℕ) (aborted : List ℕ) (ws : List Waiter)
    → All (λ w. has w.signal aborted ≡ false) ws
    → All (λ w. has w.signal (g ∷ aborted) ≡ false) (filter (λ w. not (waits_on g w)) ws)
unfolding has
live-filter g aborted [] l = tt
live-filter g aborted (w ∷ ws) l =
    let rest = live-filter g aborted ws l.1 in
    if_intro_when (All (λ x. has x.signal (g ∷ aborted) ≡ false)) (not (waits_on g w))
      (λ other. (other_signal g aborted w other l.0, rest)) rest

abort_signal-Inv : (g : ℕ) (s : ToolLimiter) → Inv s → Inv (abort_signal g s)
unfolding abort_signal
abort_signal-Inv g s i = record {
  positive = i.positive;
  counted = i.counted;
  bounded = i.bounded;
  busy = elim i.busy [ inl e ↦ inl (ap (filter (λ w. not (waits_on g w))) e) | inr e ↦ inr e ];
  live = live-filter g s.aborted s.queue i.live;
}

pub step-Inv : (c : Call) (s : ToolLimiter) → Inv s → Inv (step c s)
unfolding step
step-Inv (acquires h g) s i = acquire-Inv h g s i
step-Inv (releases h) s i = release-Inv h s i
step-Inv (aborts g) s i = abort_signal-Inv g s i

pub run-Inv : (cs : List Call) (s : ToolLimiter) → Inv s → Inv (run cs s)
unfolding run
run-Inv [] s i = i
run-Inv (c ∷ cs) s i = run-Inv cs (step c s) (step-Inv c s i)

pub init-Inv : (limit : ℕ) → 1 ≤ limit → Inv (init limit)
init-Inv limit p = record {
  positive = p;
  counted = refl;
  bounded = omega arith;
  busy = inl refl;
  live = tt;
}

-- Whatever is called on a new limiter, in whatever order: the count is that of the calls that were
-- let in and have not released, at most `limit` of them, a call waits only while all places are
-- taken, and none waits whose signal is aborted.
pub run-new-Inv : (limit : ℕ) (cs : List Call) → 1 ≤ limit → Inv (run cs (init limit))
run-new-Inv limit cs p = run-Inv cs (init limit) (init-Inv limit p)
