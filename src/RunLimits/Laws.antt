-- ===== src/RunLimits/Laws.antt =====
-- The run limit over any sequence of calls.
use open_dynamic_workflow.Base.{
  ℕ, suc, ◌+◌, ◌-◌, ◌≤◌, ◌≡◌, refl, String, true, false, none, some, List, [], ◌∷◌, leb, arith,
  length, ltb, if◌then◌else◌,
}
use open_dynamic_workflow.RunLimits.{
  RunLimitTracker, new, limit_message, mark_exceeded, before_agent_schedule,
}

-- The calls of `beforeAgentSchedule` in order: the tracker after them, and how many passed.
unfoldable pub schedules : List String → RunLimitTracker → RunLimitTracker × ℕ
schedules [] s = (s, 0)
schedules (id ∷ ids) s =
    let rest = schedules ids (before_agent_schedule id s).0 in
    elim ((before_agent_schedule id s).1) [ none ↦ (rest.0, suc rest.1) | some m ↦ rest ]

abbrev pub min : ℕ → ℕ → ℕ
min a b = if leb a b then a else b

abbrev pub tracker : ℕ → ℕ → RunLimitTracker
tracker m n = record { max_agent_calls = some m; agent_calls = n; exceeded = false; message = none }

abbrev pub exceeding : ℕ → ℕ → String → RunLimitTracker
exceeding m n t = record {
  max_agent_calls = some m;
  agent_calls = n;
  exceeded = true;
  message = some t;
}

-- Once it has refused, it refuses.
schedules-exceeding :
    (ids : List String) (m n : ℕ) (t : String)
    → m ≤ n
    → schedules ids (exceeding m n t) ≡ (exceeding m n t, 0)
unfolding schedules before_agent_schedule mark_exceeded
schedules-exceeding [] m n t h = refl
schedules-exceeding (id ∷ ids) m n t h = ground (arith, schedules-exceeding ids m n t h)

-- What a tracker that has not refused yet lets pass, and where it stands then.
schedules-tracker :
    (ids : List String) (m n : ℕ)
    → n ≤ m
    → ((schedules ids (tracker m n)).1 ≡ min (length ids) (m - n))
      × (((schedules ids (tracker m n)).0.agent_calls ≡ n + min (length ids) (m - n))
          × ((schedules ids (tracker m n)).0.exceeded ≡ ltb (m - n) (length ids)))
unfolding schedules before_agent_schedule mark_exceeded
schedules-tracker [] m n h = (ground arith, (ground arith, ground arith))
schedules-tracker (id ∷ ids) m n h =
    ground
      (arith, schedules-tracker ids m (n + 1), schedules-exceeding ids m n (limit_message id m))

-- A new tracker with a limit lets calls pass up to the limit and no further, counts those that
-- pass, and is marked as exceeded once there are more calls than that.
pub new-schedules :
    (ids : List String) (m : ℕ)
    → ((schedules ids (new (some (suc m)))).1 ≡ min (length ids) (suc m))
      × (((schedules ids (new (some (suc m)))).0.agent_calls ≡ min (length ids) (suc m))
          × ((schedules ids (new (some (suc m)))).0.exceeded ≡ ltb (suc m) (length ids)))
unfolding new
new-schedules ids m =
    let h = schedules-tracker ids (suc m) 0 (omega arith) in
    (ground (arith, h.0), (ground (arith, h.1.0), ground (arith, h.1.1)))
