-- ===== src/EventBus/Order.antt =====
-- The order in which the event bus settles what is emitted.
use mathlib.Core.List.{map-append}
use open_dynamic_workflow.Base.{
  ℕ, zero, suc, ◌+◌, ◌≡◌, refl, sym, ap, subst, ◌∙◌, Bool, true, false, List, [], ◌∷◌, ◌++◌, map,
  append_assoc, arith,
}
use open_dynamic_workflow.EventBus.{
  EventEnvelope, EventBus, new, emit, subscribe, notify, handle_event, Call, emits, subscribes,
  handles, step, run,
}

-- 1, 2, …, n.
unfoldable pub numbers : ℕ → List ℕ
numbers zero = []
numbers (suc n) = numbers n ++ suc n ∷ []

-- The settled events, then those that wait.
abbrev pub line : EventBus → List ℕ
line s = map (λ p. p.0) s.settled ++ map (λ e. e.sequence) s.emit_queue

move :
    (xs : List (ℕ × Bool)) (n : ℕ) (b : Bool) (ys : List ℕ)
    → map (λ p. p.0) (xs ++ (n, b) ∷ []) ++ ys ≡ map (λ p. p.0) xs ++ n ∷ ys
move [] n b ys = refl
move (x ∷ xs) n b ys = ap (λ l. x.0 ∷ l) (move xs n b ys)

next : (n : ℕ) → suc n ≡ n + 1
next n = omega arith

numbers-suc : (n : ℕ) → numbers (n + 1) ≡ numbers n ++ (n + 1) ∷ []
unfolding numbers
numbers-suc n = subst (λ m. numbers m ≡ numbers n ++ m ∷ []) (next n) refl

handle_event-line :
    (joining : List ℕ) (stored : Bool) (throws : ℕ → Bool) (q : List EventEnvelope) (s : EventBus)
    → s.emit_queue ≡ q
    → line s ≡ numbers s.sequence
    → line (handle_event joining stored throws q s)
      ≡ numbers (handle_event joining stored throws q s).sequence
handle_event-line joining stored throws [] s e h = h
handle_event-line joining true throws (x ∷ q) s e h =
    move s.settled x.sequence (notify throws (s.subscribers ++ joining)).1 (map (λ y. y.sequence) q)
    ∙ (sym (ap (λ l. map (λ p. p.0) s.settled ++ map (λ y. y.sequence) l) e) ∙ h)
handle_event-line joining false throws (x ∷ q) s e h =
    move s.settled x.sequence false (map (λ y. y.sequence) q)
    ∙ (sym (ap (λ l. map (λ p. p.0) s.settled ++ map (λ y. y.sequence) l) e) ∙ h)

step-line :
    (c : Call) (s : EventBus)
    → line s ≡ numbers s.sequence
    → line (step c s) ≡ numbers (step c s).sequence
unfolding step emit subscribe
step-line (emits payload) s h =
    let e : EventEnvelope = record { sequence = s.sequence + 1; payload = payload } in
    ap (λ r. map (λ p. p.0) s.settled ++ r)
      (map-append (λ (x : EventEnvelope). x.sequence) s.emit_queue (e ∷ []))
    ∙ (sym (
          append_assoc (map (λ p. p.0) s.settled) (map (λ x. x.sequence) s.emit_queue)
            ((s.sequence + 1) ∷ []))
        ∙ (ap (λ l. l ++ (s.sequence + 1) ∷ []) h ∙ sym (numbers-suc s.sequence)))
step-line (subscribes n) s h = h
step-line (handles joining stored throws) s h =
    handle_event-line joining stored throws s.emit_queue s refl h

run-line :
    (cs : List Call) (s : EventBus)
    → line s ≡ numbers s.sequence
    → line (run cs s) ≡ numbers (run cs s).sequence
unfolding run
run-line [] s h = h
run-line (c ∷ cs) s h = run-line cs (step c s) (step-line c s h)

-- Whatever happens to a new bus, the events whose promises are settled and then those that wait have
-- the sequence numbers from 1 to that of the last one emitted, in this order: each event is settled
-- once, in the order of emission, whichever stores or subscribers fail.
pub run-new-numbers :
    (subscribers : List ℕ) (cs : List Call)
    → line (run cs (new subscribers)) ≡ numbers (run cs (new subscribers)).sequence
unfolding new numbers
run-new-numbers subscribers cs = run-line cs (new subscribers) refl
