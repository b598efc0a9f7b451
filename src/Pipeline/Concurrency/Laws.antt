-- ===== src/Pipeline/Concurrency/Laws.antt =====
-- The concurrency limiter: how many functions run at a time, and in which order they are called.
use open_dynamic_workflow.Base.{
  All-imply, ℕ, zero, suc, ◌≤◌, ◌≡◌, refl, sym, ap, ◌∙◌, subst, true, false, Option, none, some,
  List, [], ◌∷◌, ◌++◌, length, if_intro, if_intro_when, if_then, if_else, Bool-cases, ltb, leb,
  if◌then◌else◌, arith, ◌⊎◌, inl, inr, All,
}
use open_dynamic_workflow.Pipeline.Concurrency.{
  Limit, finite, infinity, positive, min_limit, get_effective_stage_concurrency, ConcurrencyLimiter,
  create_limiter, call, acquire, begin, release, has, drop_one, leave, end, Call, begins, ends,
  step, run,
}

-- With a finite limit the count is that of the running functions, at most the limit, and a call
-- waits only while all places are taken.
unfoldable pub IsLimited : Limit → ConcurrencyLimiter → Type 0
IsLimited infinity s = s.queue ≡ []
IsLimited (finite n) s =
    (1 ≤ n)
    × ((s.active_count ≡ length s.running)
        × ((s.active_count ≤ n) × ((s.queue ≡ []) ⊎ (s.active_count ≡ n))))

length-drop_one : (n : ℕ) (ms : List ℕ) → has n ms ≡ true → suc (length (drop_one n ms)) ≡ length ms
unfolding has drop_one
length-drop_one n [] h = cc
length-drop_one n (m ∷ ms) h = ground (arith, h, length-drop_one n ms)

acquire-IsLimited :
    (n h : ℕ) (s : ConcurrencyLimiter)
    → IsLimited (finite n) s
    → IsLimited (finite n) (acquire n h s)
unfolding IsLimited
acquire-IsLimited n h s i = elim (Bool-cases (ltb s.active_count n)) [
  | inl lt ↦ if_then (IsLimited (finite n)) (ltb s.active_count n) _ _ lt (
    i.0,
    (
      omega (arith, i.1.0),
      (ground (arith, lt), elim i.1.1.1 [ inl e ↦ inl e | inr e ↦ absurd (ground (arith, lt, e)) ]),
    ),
  )
  | inr ge ↦
      if_else (IsLimited (finite n)) (ltb s.active_count n) _ _ ge
        (i.0, (i.1.0, (i.1.1.0, inr (ground (arith, ge, i.1.1.0)))))
]

release-IsLimited :
    (n : ℕ) (q : List ℕ) (s : ConcurrencyLimiter)
    → s.queue ≡ q
    → 1 ≤ n
    → s.active_count ≡ suc (length s.running)
    → s.active_count ≤ n
    → (q ≡ []) ⊎ (s.active_count ≡ n)
    → IsLimited (finite n) (release q s)
unfolding IsLimited
release-IsLimited n [] s e p c b f = (p, (omega (arith, c), (omega (arith, b), inl e)))
release-IsLimited n (x ∷ q) s e p c b f = (
  p,
  (
    omega (arith, c),
    (
      omega (arith, b, c),
      inr (elim f [
        | inl none_left ↦ absurd (omega (arith, ap length none_left))
        | inr full ↦ omega (arith, full, c)
      ]),
    ),
  ),
)

-- The limit is kept, and what it promises.
abbrev Kept : Limit → ConcurrencyLimiter → Type 0
Kept l s = (s.limit ≡ l) × IsLimited l s

begin-Kept : (l : Limit) (h : ℕ) (s : ConcurrencyLimiter) → Kept l s → Kept l (begin h s)
unfolding begin IsLimited
begin-Kept l h s k =
    subst
      (λ m.
        Kept l
          (elim m as (λ x. ConcurrencyLimiter) [ infinity ↦ call h s | finite n ↦ acquire n h s ]))
      (sym k.0) (begun l k)
  where
    begun :
        (m : Limit)
        → Kept m s
        → Kept m
            (elim m as (λ x. ConcurrencyLimiter) [ infinity ↦ call h s | finite n ↦ acquire n h s ])
    begun infinity k' = k'
    begun (finite n) k' = (
      if_intro (λ (r : ConcurrencyLimiter). r.limit ≡ finite n) (ltb s.active_count n) k'.0 k'.0,
      acquire-IsLimited n h s k'.1,
    )

release-limit : (q : List ℕ) (s : ConcurrencyLimiter) → (release q s).limit ≡ s.limit
release-limit [] s = refl
release-limit (x ∷ q) s = refl

end-Kept : (l : Limit) (h : ℕ) (s : ConcurrencyLimiter) → Kept l s → Kept l (end h s)
unfolding end IsLimited
end-Kept l h s k =
    if_intro_when (Kept l) (has h s.running)
      (λ held.
        subst
          (λ m. Kept l (elim m as (λ x. ConcurrencyLimiter) [
            | infinity ↦ leave h s
            | finite n ↦ release s.queue (leave h s)
          ]))
          (sym k.0) (ended l k held))
      k
  where
    ended :
        (m : Limit)
        → Kept m s
        → has h s.running ≡ true
        → Kept m (elim m as (λ x. ConcurrencyLimiter) [
          | infinity ↦ leave h s
          | finite n ↦ release s.queue (leave h s)
        ])
    ended infinity k' held = k'
    ended (finite n) k' held = (
      release-limit s.queue (leave h s) ∙ k'.0,
      release-IsLimited n s.queue (leave h s) refl k'.1.0
          (omega (arith, k'.1.1.0, length-drop_one h s.running held)) k'.1.1.1.0 k'.1.1.1.1,
    )

step-Kept : (l : Limit) (c : Call) (s : ConcurrencyLimiter) → Kept l s → Kept l (step c s)
unfolding step
step-Kept l (begins h) s k = begin-Kept l h s k
step-Kept l (ends h) s k = end-Kept l h s k

run-Kept : (l : Limit) (cs : List Call) (s : ConcurrencyLimiter) → Kept l s → Kept l (run cs s)
unfolding run
run-Kept l [] s k = k
run-Kept l (c ∷ cs) s k = run-Kept l cs (step c s) (step-Kept l c s k)

-- Whatever is called on a new limiter, in whatever order: with a positive limit at most that many
-- functions run at a time and a call waits only while as many do; without one, no call waits.
pub run-create_limiter-IsLimited :
    (limit : Option ℕ) (cs : List Call)
    → IsLimited (min_limit (positive limit)) (run cs (create_limiter limit))
unfolding create_limiter min_limit IsLimited
run-create_limiter-IsLimited limit cs =
    (run-Kept (min_limit (positive limit)) cs (create_limiter limit) (refl, fresh limit)).1
  where
    fresh : (o : Option ℕ) → IsLimited (min_limit (positive o)) (create_limiter o)
    fresh none = refl
    fresh (some zero) = refl
    fresh (some (suc n)) = (omega arith, (refl, (omega arith, inl refl)))

-- At most this number.
unfoldable pub IsWithin : Limit → ℕ → Type 0
IsWithin infinity n = ⊥
IsWithin (finite m) n = m ≤ n

-- One of these numbers, or infinity if there are none.
unfoldable pub IsFrom : Limit → List ℕ → Type 0
IsFrom infinity ns = ns ≡ []
IsFrom (finite m) [] = ⊥
IsFrom (finite m) (n ∷ ns) = (m ≡ n) ⊎ IsFrom (finite m) ns

-- The step of `Math.min` with one more number.
abbrev lower : ℕ → Limit → Limit
lower n l = elim l [ infinity ↦ finite n | finite m ↦ finite (if leb n m then n else m) ]

lower-IsWithin :
    (n : ℕ) (l : Limit) (ns : List ℕ) → All (IsWithin l) ns → All (IsWithin (lower n l)) (n ∷ ns)
unfolding IsWithin
lower-IsWithin n infinity ns h =
    (omega arith, All-imply (IsWithin infinity) _ ns (λ k e. absurd e) h)
lower-IsWithin n (finite m) ns h =
    (ground arith, All-imply (IsWithin (finite m)) _ ns (λ k e. ground (arith, e)) h)

lower-IsFrom : (n : ℕ) (l : Limit) (ns : List ℕ) → IsFrom l ns → IsFrom (lower n l) (n ∷ ns)
unfolding IsFrom
lower-IsFrom n infinity ns h = inl refl
lower-IsFrom n (finite m) ns h =
    elim (leb n m) as (λ b. (if b then n else m) ≡ n ⊎ IsFrom (finite (if b then n else m)) ns) [
      | true ↦ inl refl
      | false ↦ inr h
    ]

min_limit-least : (ns : List ℕ) → All (IsWithin (min_limit ns)) ns × IsFrom (min_limit ns) ns
unfolding min_limit IsFrom
min_limit-least [] = (tt, refl)
min_limit-least (n ∷ ns) =
    let h = min_limit-least ns in
    (lower-IsWithin n (min_limit ns) ns h.0, lower-IsFrom n (min_limit ns) ns h.1)

-- The effective concurrency of a stage is at most each of the positive limits that are given, and it
-- is one of them, or infinity if none is given.
pub get_effective_stage_concurrency-least :
    (property pipeline option : Option ℕ)
    → let l = get_effective_stage_concurrency property pipeline option in
      let given = positive property ++ positive pipeline ++ positive option in
      All (IsWithin l) given × IsFrom l given
unfolding get_effective_stage_concurrency
get_effective_stage_concurrency-least property pipeline option =
    min_limit-least (positive property ++ positive pipeline ++ positive option)
