-- ===== src/ToolLimiter/Order.antt =====
-- The order in which calls are let in.
use mathlib.Core.List.{map-append}
use open_dynamic_workflow.Base.{
  ℕ, ◌≤◌, ◌≡◌, refl, sym, ap, ◌∙◌, Bool, true, false, List, [], ◌∷◌, ◌++◌, map, append_assoc,
  append-nil, if_intro, if_intro_when, if_else, ltb, All,
}
use open_dynamic_workflow.ToolLimiter.{
  ToolLimiter, Waiter, init, has, grant, acquire, pump_loop, pump, release, Call, acquires,
  releases, aborts, step, run,
}
use open_dynamic_workflow.ToolLimiter.Bounds.{Inv, init-Inv, step-Inv, idle_lem}

-- The calls that were let in, then those that wait.
abbrev pub line : ToolLimiter → List ℕ
line s = s.granted ++ map (λ w. w.handle) s.queue

-- The handles of the calls of `acquire`.
unfoldable pub acquired : List Call → List ℕ
acquired [] = []
acquired (acquires h g ∷ cs) = h ∷ acquired cs
acquired (c ∷ cs) = acquired cs

abbrev pub no_abort : Call → Bool
no_abort (aborts g) = false
no_abort _ = true

-- No signal is aborted, and the line has grown by these handles.
abbrev Grown : List ℕ → ToolLimiter → ToolLimiter → Type 0
Grown hs s s' = (s'.aborted ≡ []) × (line s' ≡ line s ++ hs)

pump_loop-line :
    (ws : List Waiter) (s : ToolLimiter)
    → s.aborted ≡ []
    → ((pump_loop ws s).aborted ≡ [])
      × (line (pump_loop ws s) ≡ s.granted ++ map (λ w. w.handle) ws)
unfolding pump_loop has
pump_loop-line [] s e = (e, refl)
pump_loop-line (w ∷ ws) s e =
    let P : ToolLimiter → Type 0 =
      λ x. (x.aborted ≡ []) × (line x ≡ s.granted ++ map (λ v. v.handle) (w ∷ ws)) in
    let rest = pump_loop-line ws (grant w.handle s) e in
    if_intro P (ltb s.active_count s.limit)
      (if_else P (has w.signal s.aborted) _ _ (ap (has w.signal) e)
        (rest.0, rest.1 ∙ append_assoc s.granted (w.handle ∷ []) (map (λ v. v.handle) ws)))
      (e, refl)

-- A call that is let in at once.
let_in : (h : ℕ) (s : ToolLimiter) → s.queue ≡ [] → line (grant h s) ≡ line s ++ h ∷ []
let_in h s q =
    ap (λ r. (s.granted ++ h ∷ []) ++ map (λ w. w.handle) r) q
    ∙ (append-nil (s.granted ++ h ∷ [])
        ∙ ap (λ r. r ++ h ∷ [])
            (sym (ap (λ r. s.granted ++ map (λ w. w.handle) r) q ∙ append-nil s.granted)))

acquire-Grown :
    (h g : ℕ) (s : ToolLimiter) → Inv s → s.aborted ≡ [] → Grown (h ∷ []) s (acquire h g s)
unfolding acquire has
acquire-Grown h g s i e = if_else (Grown (h ∷ []) s) (has g s.aborted) _ _ (ap (has g) e) (
    if_intro_when (Grown (h ∷ []) s) (ltb s.active_count s.limit)
      (λ lt. (e, let_in h s (idle_lem s i lt)))
      (
        e,
        ap (λ r. s.granted ++ r)
              (map-append (λ (w : Waiter). w.handle) s.queue
                (record { handle = h; signal = g } ∷ []))
            ∙ sym (append_assoc s.granted (map (λ w. w.handle) s.queue) (h ∷ [])),
      ))

release-Grown : (h : ℕ) (s : ToolLimiter) → s.aborted ≡ [] → Grown [] s (release h s)
unfolding release pump
release-Grown h s e =
    if_intro (Grown [] s) (has h s.held)
      (let p = pump_loop-line s.queue _ e in (p.0, p.1 ∙ sym (append-nil (line s))))
      (e, sym (append-nil (line s)))

step-Grown :
    (c : Call) (s : ToolLimiter)
    → no_abort c ≡ true
    → Inv s
    → s.aborted ≡ []
    → Grown (acquired (c ∷ [])) s (step c s)
unfolding step acquired
step-Grown (acquires h g) s n i e = acquire-Grown h g s i e
step-Grown (releases h) s n i e = release-Grown h s e
step-Grown (aborts g) s n i e = cc

acquired_cons : (c : Call) (cs : List Call) → acquired (c ∷ []) ++ acquired cs ≡ acquired (c ∷ cs)
unfolding acquired
acquired_cons (acquires h g) cs = refl
acquired_cons (releases h) cs = refl
acquired_cons (aborts g) cs = refl

run-line :
    (cs : List Call) (s : ToolLimiter)
    → All (λ c. no_abort c ≡ true) cs
    → Inv s
    → s.aborted ≡ []
    → line (run cs s) ≡ line s ++ acquired cs
unfolding run acquired
run-line [] s n i e = sym (append-nil (line s))
run-line (c ∷ cs) s n i e =
    let g = step-Grown c s n.0 i e in
    run-line cs (step c s) n.1 (step-Inv c s i) g.0
    ∙ (ap (λ l. l ++ acquired cs) g.1
        ∙ (append_assoc (line s) (acquired (c ∷ [])) (acquired cs)
            ∙ ap (λ l. line s ++ l) (acquired_cons c cs)))

-- As long as no signal is aborted, the calls that a new limiter has let in and then those that wait
-- are the calls of `acquire` in their order: first in, first out, none left out.
pub run-new-order :
    (limit : ℕ) (cs : List Call)
    → 1 ≤ limit
    → All (λ c. no_abort c ≡ true) cs
    → line (run cs (init limit)) ≡ acquired cs
run-new-order limit cs p n = run-line cs (init limit) n (init-Inv limit p) refl
