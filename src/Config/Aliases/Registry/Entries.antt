-- ===== src/Config/Aliases/Registry/Entries.antt =====
-- The initial marks and the registry of final marks, in config/provider-aliases.ts.
use open_dynamic_workflow.Base.{
  ◌≡◌, ◌≢◌, Bool, true, false, Option, none, some, List, [], ◌∷◌, Text, lookup, lookup-insert,
  lookup-insert-cases, arith, inl, inr, if◌then◌else◌, ℕ_eq, List_eq, List_eq, list_eq_iff, refl,
  ap, ◌==◌,
}
use open_dynamic_workflow.Config.Aliases.Data.{ResolvedAlias, Mark, unvisited, visiting, resolved}
use open_dynamic_workflow.Config.Aliases.Sorting.{contains}
use open_dynamic_workflow.Config.Aliases.{
  Marks, unvisited_marks, resolved_of, with_entry, registry_of,
}

pub resolved_of-some :
    (o : Option Mark) (r : ResolvedAlias) → resolved_of o ≡ some r → o ≡ some (resolved r)
resolved_of-some none r e = cc
resolved_of-some (some unvisited) r e = cc
resolved_of-some (some visiting) r e = cc
resolved_of-some (some (resolved s)) r e = cc

pub if_same {ℓ} : {A : Type ℓ} (b : Bool) (x : A) → (if b then x else x) ≡ x
if_same true x = refl
if_same false x = refl

pub if_both : (b k : Bool) → k ≡ true → (if b then true else k) ≡ true
if_both true k e = refl
if_both false k e = e

pub none-some {ℓ} : {A : Type ℓ} {x : A} → none ≢ some x
none-some h = cc

pub unvisited_resolved : {r : ResolvedAlias} → unvisited ≢ resolved r
unvisited_resolved h = cc

pub unvisited_visiting : unvisited ≢ visiting
unvisited_visiting h = cc

pub unvisited_marks-unvisited :
    (names : List Text) (v : Text) (m : Mark)
    → lookup v (unvisited_marks names) ≡ some m
    → unvisited ≡ m
unfolding unvisited_marks lookup
unvisited_marks-unvisited [] v m e = cc
unvisited_marks-unvisited (name ∷ names) v m e =
    elim (lookup-insert-cases name v unvisited m (unvisited_marks names) e) [
      | inl (_, x) ↦ x
      | inr (_, x) ↦ unvisited_marks-unvisited names v m x
    ]

with_entry-lookup :
    (name v : Text) (o there : Option ResolvedAlias) (known : Bool)
    (reg : List (Text × ResolvedAlias))
    → lookup v reg ≡ (if known then there else none)
    → (name ≡ v → o ≡ there)
    → lookup v (with_entry name o reg)
      ≡ (if (if name == v then true else known) then there else none)
with_entry-lookup name v none there known reg h same = ground (arith, h, same, list_eq_iff name v)
with_entry-lookup name v (some r) there known reg h same =
    ground (arith, h, same, lookup-insert name v r reg, list_eq_iff name v)

pub registry_of-lookup :
    (names : List Text) (marks : Marks) (v : Text)
    → lookup v (registry_of names marks)
      ≡ (if contains v names then resolved_of (lookup v marks) else none)
unfolding registry_of contains lookup
registry_of-lookup [] marks v = refl
registry_of-lookup (name ∷ names) marks v =
    with_entry-lookup name v (resolved_of (lookup name marks)) (resolved_of (lookup v marks))
      (contains v names) (registry_of names marks) (registry_of-lookup names marks v)
      (λ e. ap (λ u. resolved_of (lookup u marks)) e)
