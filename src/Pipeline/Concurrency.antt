-- ===== src/Pipeline/Concurrency.antt =====
-- pipeline/concurrency.ts: `ConcurrencyLimiter`, `createLimiter` and `getEffectiveStageConcurrency`,
-- of natural numbers. A call of `run` has a handle, which stands for its promise and its function.
pub mod Laws
mod Examples
use open_dynamic_workflow.Base.{
  ℕ, ℕ_eq, zero, suc, ◌+◌, ◌-◌, ◌==◌, Bool, true, false, ◌||◌, Option, none, some, List, [], ◌∷◌,
  ◌++◌, ltb, leb, if◌then◌else◌,
}

-- A positive number, or `Infinity`.
pub data Limit : Type 0 where
  finite : ℕ → Limit
  infinity : Limit

-- `limit !== undefined && limit > 0`
abbrev pub positive : Option ℕ → List ℕ
positive none = []
positive (some zero) = []
positive (some (suc n)) = suc n ∷ []

-- `Math.min(...limits)`, or `Infinity` of no limits.
unfoldable pub min_limit : List ℕ → Limit
min_limit [] = infinity
min_limit (n ∷ ns) = elim (min_limit ns) [
  | infinity ↦ finite n
  | finite m ↦ finite (if leb n m then n else m)
]

unfoldable pub get_effective_stage_concurrency : Option ℕ → Option ℕ → Option ℕ → Limit
unfolding min_limit
get_effective_stage_concurrency property pipeline option =
    min_limit (positive property ++ positive pipeline ++ positive option)

-- The fields of the limiter, and the handles of the calls whose functions were called, in that
-- order, and of those whose functions have not ended.
pub record ConcurrencyLimiter : Type 0 where
  pub limit : Limit
  pub active_count : ℕ
  pub queue : List ℕ
  pub called : List ℕ
  pub running : List ℕ

unfoldable pub create_limiter : Option ℕ → ConcurrencyLimiter
unfolding min_limit
create_limiter limit = record {
  limit = min_limit (positive limit);
  active_count = 0;
  queue = [];
  called = [];
  running = [];
}

abbrev pub call : ℕ → ConcurrencyLimiter → ConcurrencyLimiter
call handle s = record s { called = s.called ++ handle ∷ []; running = handle ∷ s.running }

-- `acquire`, and the function if it resolves at once.
abbrev pub acquire : ℕ → ℕ → ConcurrencyLimiter → ConcurrencyLimiter
acquire limit handle s =
    if ltb s.active_count limit
    then call handle (record s { active_count = s.active_count + 1 })
    else record s { queue = s.queue ++ handle ∷ [] }

-- `run` until the function or the promise of `acquire` is awaited.
unfoldable pub begin : ℕ → ConcurrencyLimiter → ConcurrencyLimiter
begin handle s = elim s.limit [ infinity ↦ call handle s | finite limit ↦ acquire limit handle s ]

-- `release`, with the queue.
abbrev pub release : List ℕ → ConcurrencyLimiter → ConcurrencyLimiter
release [] s = record s { active_count = s.active_count - 1 }
release (next ∷ rest) s =
    call next (record s { active_count = s.active_count - 1 + 1; queue = rest })

unfoldable pub has : ℕ → List ℕ → Bool
has n [] = false
has n (m ∷ ms) = m == n || has n ms

unfoldable pub drop_one : ℕ → List ℕ → List ℕ
drop_one n [] = []
drop_one n (m ∷ ms) = let rest = drop_one n ms in if m == n then ms else m ∷ rest

-- The function has ended.
abbrev pub leave : ℕ → ConcurrencyLimiter → ConcurrencyLimiter
leave handle s = record s { running = drop_one handle s.running }

-- `run` from the end of the function: the finally block.
unfoldable pub end : ℕ → ConcurrencyLimiter → ConcurrencyLimiter
end handle s =
    if has handle s.running
    then elim s.limit [
      | infinity ↦ leave handle s
      | finite limit ↦ release s.queue (leave handle s)
    ]
    else s

pub data Call : Type 0 where
  begins ends : ℕ → Call

unfoldable pub step : Call → ConcurrencyLimiter → ConcurrencyLimiter
unfolding begin end
step (begins handle) s = begin handle s
step (ends handle) s = end handle s

unfoldable pub run : List Call → ConcurrencyLimiter → ConcurrencyLimiter
unfolding step
run [] s = s
run (c ∷ cs) s = run cs (step c s)
