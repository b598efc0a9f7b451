-- ===== src/Scheduler/Slots/Keys.antt =====
-- The ids of tasks: distinct ids, the keys of the map, and what inserting and removing does to them.
use open_dynamic_workflow.Base.{
  ℕ, ◌≡◌, refl, Bool, true, false, ◌||◌, if◌then◌else◌, some, List, [], ◌∷◌, ◌++◌, map, arith,
  String, String_eq, ◌==◌, eq_refl, eq_iff, insert, remove,
}
use open_dynamic_workflow.Scheduler.{InternalTask, find_run, drop_run}
use open_dynamic_workflow.Scheduler.Quiescence.{find_run-handle}

abbrev pub ids : List InternalTask → List String
ids = map λ t. t.id

abbrev pub keys : List (String × InternalTask) → List String
keys = map λ r. r.0

abbrev pub mem : String → List String → Bool
mem i [] = false
mem i (j ∷ js) = j == i || mem i js

abbrev pub Distinct : List String → Type 0
Distinct [] = Unit
Distinct (i ∷ is) = (mem i is ≡ false) × Distinct is

pub mem-append : (i : String) (is js : List String) → mem i (is ++ js) ≡ mem i is || mem i js
mem-append i [] js = refl
mem-append i (k ∷ is) js = ground (arith, mem-append i is js)

pub Distinct-concat :
    (is : List String) (i : String) → Distinct is → mem i is ≡ false → Distinct (is ++ i ∷ [])
Distinct-concat [] i d e = (refl, tt)
Distinct-concat (j ∷ is) i d e =
    ground (arith, mem-append j is (i ∷ []), Distinct-concat is i, eq_iff i j, eq_iff j i)

pub Distinct-left : (is js : List String) → Distinct (is ++ js) → Distinct is
Distinct-left [] js d = tt
Distinct-left (i ∷ is) js d = ground (arith, mem-append i is js, Distinct-left is js)

pub Distinct-middle :
    (is : List String) (i : String) (js : List String) → Distinct (is ++ i ∷ js) → mem i is ≡ false
Distinct-middle [] i js d = refl
Distinct-middle (j ∷ is) i js d =
    ground (arith, mem-append j is (i ∷ js), Distinct-middle is i js, eq_iff i j, eq_iff j i)

pub keys-insert :
    (i : String) (t : InternalTask) (m : List (String × InternalTask))
    → mem i (keys m) ≡ false
    → keys (insert i t m) ≡ keys m ++ i ∷ []
unfolding insert
keys-insert i t [] e = refl
keys-insert i t ((j, u) ∷ m) e = ground (arith, keys-insert i t m)

pub without_key : String → List String → List String
without_key i [] = []
without_key i (j ∷ js) = let rest = without_key i js in if j == i then rest else j ∷ rest

pub keys-remove :
    (i : String) (m : List (String × InternalTask)) → keys (remove i m) ≡ without_key i (keys m)
unfolding remove without_key
keys-remove i [] = refl
keys-remove i ((j, u) ∷ m) = ground (arith, keys-remove i m)

without_key-absent : (i : String) (is : List String) → mem i is ≡ false → without_key i is ≡ is
unfolding without_key
without_key-absent i [] e = refl
without_key-absent i (j ∷ is) e = ground (arith, without_key-absent i is)

mem_found :
    (k : ℕ) (t : InternalTask) (ts : List InternalTask)
    → find_run k ts ≡ some t
    → mem t.id (ids ts) ≡ true
unfolding find_run
mem_found k t [] e = cc
mem_found k t (x ∷ ts) e = ground (arith, mem_found k t ts, eq_refl t.id)

mem-drop_run :
    (i : String) (h : ℕ) (ts : List InternalTask) (js : List String)
    → mem i (ids ts ++ js) ≡ false
    → mem i (ids (drop_run h ts) ++ js) ≡ false
unfolding drop_run
mem-drop_run i h [] js e = e
mem-drop_run i h (x ∷ ts) js e = ground (arith, mem-drop_run i h ts js)

pub Distinct-drop_run :
    (h : ℕ) (ts : List InternalTask) (js : List String)
    → Distinct (ids ts ++ js)
    → Distinct (ids (drop_run h ts) ++ js)
unfolding drop_run
Distinct-drop_run h [] js d = d
Distinct-drop_run h (x ∷ ts) js d =
    ground (arith, Distinct-drop_run h ts js, mem-drop_run x.id h ts js)

pub ids-drop_run :
    (k : ℕ) (t : InternalTask) (ts : List InternalTask)
    → find_run k ts ≡ some t
    → Distinct (ids ts)
    → ids (drop_run t.handle ts) ≡ without_key t.id (ids ts)
unfolding find_run drop_run without_key
ids-drop_run k t [] e d = cc
ids-drop_run k t (x ∷ ts) e d = ground (
  arith,
  ids-drop_run k t ts,
  find_run-handle k t ts,
  mem_found k t ts,
  without_key-absent x.id (ids ts),
  eq_iff x.id t.id,
)
