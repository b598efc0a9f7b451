-- ===== src/Config/Aliases/Sound.antt =====
-- What `resolveAlias` returns and marks is what the chain of the alias gives.
use open_dynamic_workflow.Base.{
  ℕ, zero, suc, ◌+◌, ◌≤◌, ◌≡◌, ◌≢◌, Option, none, some, List, [], ◌∷◌, ◌++◌, length, Text, lookup,
  insert, lookup-insert-same, lookup-insert-other, lookup-insert-cases, Result, ok, err, bind_ok,
  arith, ltb, Bool-cases, inl, inr, if_true, if_false, ℕ_eq, List_eq, refl, sym, ap, subst, ◌∙◌,
}
use open_dynamic_workflow.Config.Aliases.Data.{
  AliasConfig, ResolvedAlias, AliasesInput, Mark, unvisited, visiting, resolved, AliasError, Stop,
}
use open_dynamic_workflow.Config.Aliases.Merge.{merge_alias, chain_of_parent}
use open_dynamic_workflow.Config.Aliases.{
  Marks, Resolution, lift, check_chain, call_parent, resolve_parent, finish, visit_definition,
  visit, at_mark, resolve_alias,
}
use open_dynamic_workflow.Config.Aliases.Reference.{
  derive, IsParent, IsParent-chain, Derivation-derive, derive-chain, derive-le,
}

-- Both results return.
pub ok_inj {ℓ} : {A : Type ℓ} {E : Type 0} {x y : A} → Path (Result E A) (ok x) (ok y) → x ≡ y
ok_inj h = cc

pub err_ok {ℓ} : {A : Type ℓ} {x : Stop} {y : A} → err x ≢ ok y
err_ok h = cc

pub lift_ok : (m : Result AliasError ResolvedAlias) (r : ResolvedAlias) → lift m ≡ ok r → m ≡ ok r
lift_ok (ok s) r h = cc
lift_ok (err e) r h = cc

resolved_inj : {r s : ResolvedAlias} → resolved r ≡ resolved s → r ≡ s
resolved_inj h = cc

visiting_resolved : {s : ResolvedAlias} → visiting ≢ resolved s
visiting_resolved h = cc

module _ (c : AliasesInput) where
  -- Every resolved mark holds what the chain gives within the bound.
  abbrev pub Marked : Marks → Type 0
  Marked marks =
      (v : Text) (s : ResolvedAlias)
      → lookup v marks ≡ some (resolved s)
      → derive c c.max_depth v ≡ some s

  -- A resolved mark stays.
  abbrev pub Keeps : Marks → Marks → Type 0
  Keeps marks later =
      (v : Text) (s : ResolvedAlias)
      → lookup v marks ≡ some (resolved s)
      → lookup v later ≡ some (resolved s)

  pub record Gives (name : Text) (marks : Marks) (p : ResolvedAlias × Marks) : Type 0 where
    pub derived : derive c c.max_depth name ≡ some (p.0)
    pub marked : Marked (p.1)
    pub keeps : Keeps marks (p.1)
    pub noted : lookup name (p.1) ≡ some (resolved (p.0))

  pub Marked-visiting :
      (name : Text) (marks : Marks) → Marked marks → Marked (insert name visiting marks)
  Marked-visiting name marks h v s e =
      elim (lookup-insert-cases name v visiting (resolved s) marks e) [
        | inl (_, x) ↦ absurd (visiting_resolved x)
        | inr (_, x) ↦ h v s x
      ]

  abbrev pub IsFresh : Text → Marks → Type 0
  IsFresh name marks = (s : ResolvedAlias) → lookup name marks ≢ some (resolved s)

  pub Keeps-insert :
      (name : Text) (m : Mark) (marks later : Marks)
      → IsFresh name marks
      → Keeps marks later
      → Keeps marks (insert name m later)
  Keeps-insert name m marks later fresh keeps v s e =
      lookup-insert-other name v m later
        (λ x. fresh s (subst (λ u. lookup u marks ≡ some (resolved s)) (sym x) e))
      ∙ keeps v s e

  pub Marked-resolved :
      (name : Text) (r : ResolvedAlias) (marks : Marks)
      → Marked marks
      → derive c c.max_depth name ≡ some r
      → Marked (insert name (resolved r) marks)
  Marked-resolved name r marks h d v s e =
      elim (lookup-insert-cases name v (resolved r) (resolved s) marks e) [
        | inl (x, y) ↦ subst (λ u. derive c c.max_depth u ≡ some s) x (d ∙ ap some (resolved_inj y))
        | inr (_, x) ↦ h v s x
      ]

  -- What a call of the parent gives.
  pub record ParentGives (o : Option Text) (marks : Marks) (p : Option ResolvedAlias × Marks)
      : Type 0 where
    pub from : IsParent c c.max_depth o (p.0)
    pub bound : length (chain_of_parent (p.0)) + 1 ≤ c.max_depth
    pub marked : Marked (p.1)
    pub keeps : Keeps marks (p.1)

  -- A call of a parent that does what a sound one does.
  abbrev pub IsSound : (Text → List Text → Marks → Resolution) → Type 0
  IsSound recurse =
      (name : Text) (stack : List Text) (marks : Marks) (p : ResolvedAlias × Marks)
      → Marked marks
      → recurse name stack marks ≡ ok p
      → Gives name marks p

  check_chain-Gives :
      (name parent : Text) (marks : Marks) (q : ResolvedAlias × Marks)
      (p : Option ResolvedAlias × Marks)
      → Gives parent marks q
      → check_chain c name q ≡ ok p
      → ParentGives (some parent) marks p
  check_chain-Gives name parent marks (r, m) p g e =
      elim (Bool-cases (ltb c.max_depth (length r.inheritance_chain + 1))) [
        | inl deep ↦ absurd (err_ok (sym (if_true _ _ _ deep) ∙ e))
        | inr short ↦
            let same : (some r, m) ≡ p = ok_inj (sym (if_false _ _ _ short) ∙ e) in
            subst (ParentGives (some parent) marks) same (record {
              from = (r, refl, g.derived);
              bound = ground (arith, short);
              marked = g.marked;
              keeps = g.keeps;
            })
      ]

  call_parent-Gives :
      (recurse : Text → List Text → Marks → Resolution) (name : Text) (stack : List Text)
      (parent : Text) (marks : Marks) (o : Option AliasConfig) (p : Option ResolvedAlias × Marks)
      → IsSound recurse
      → Marked marks
      → call_parent c recurse name stack parent marks o ≡ ok p
      → ParentGives (some parent) marks p
  call_parent-Gives recurse name stack parent marks none p sound h e = cc
  call_parent-Gives recurse name stack parent marks (some d) p sound h e =
      let (q, x, y) = bind_ok (recurse parent (stack ++ name ∷ []) marks) (check_chain c name) e in
      check_chain-Gives name parent marks q p (sound parent (stack ++ name ∷ []) marks q h x) y

  resolve_parent-Gives :
      (recurse : Text → List Text → Marks → Resolution) (name : Text) (stack : List Text)
      (o : Option Text) (marks : Marks) (p : Option ResolvedAlias × Marks)
      → 1 ≤ c.max_depth
      → IsSound recurse
      → Marked marks
      → resolve_parent c recurse name stack o marks ≡ ok p
      → ParentGives o marks p
  resolve_parent-Gives recurse name stack none marks p pos sound h e =
      let same : (none, marks) ≡ p = ok_inj e in
      subst (ParentGives none marks) same
        (record { from = refl; bound = omega arith; marked = h; keeps = λ v s x. x })
  resolve_parent-Gives recurse name stack (some parent) marks p pos sound h e =
      call_parent-Gives recurse name stack parent marks (lookup parent c.raw_aliases) p sound h e

  -- An alias is derived from its definition and from its parent within the bound.
  pub derive-merge :
      (name : Text) (def : AliasConfig) (parent : Option ResolvedAlias) (r : ResolvedAlias)
      → lookup name c.raw_aliases ≡ some def
      → IsParent c c.max_depth def.extends parent
      → length (chain_of_parent parent) + 1 ≤ c.max_depth
      → merge_alias c name def parent ≡ ok r
      → derive c c.max_depth name ≡ some r
  derive-merge name def parent r raw from bound merged =
      let n = length (chain_of_parent parent) in
      derive-le c (suc n) c.max_depth name r (omega (arith, bound)) (
        Derivation-derive c n name r (record {
          def = def;
          raw = raw;
          parent = parent;
          from = IsParent-chain c c.max_depth def.extends parent (derive-chain c c.max_depth) from;
          merged = merged;
        }))

  finish-Gives :
      (name : Text) (def : AliasConfig) (marks later : Marks) (q : Option ResolvedAlias × Marks)
      (p : ResolvedAlias × Marks)
      → lookup name c.raw_aliases ≡ some def
      → IsFresh name marks
      → Keeps marks later
      → ParentGives def.extends later q
      → finish c name def q ≡ ok p
      → Gives name marks p
  finish-Gives name def marks later (parent, m) p raw fresh keeps g e =
      let (r, x, y) = bind_ok (lift (merge_alias c name def parent)) _ e in
      let derived = derive-merge name def parent r raw g.from g.bound (lift_ok _ r x) in
      subst (Gives name marks) (ok_inj y) (record {
        derived = derived;
        marked = Marked-resolved name r m g.marked derived;
        keeps = Keeps-insert name (resolved r) marks m fresh (λ v s h. g.keeps v s (keeps v s h));
        noted = lookup-insert-same name (resolved r) m;
      })

  visit_definition-Gives :
      (recurse : Text → List Text → Marks → Resolution) (name : Text) (stack : List Text)
      (marks later : Marks) (o : Option AliasConfig) (p : ResolvedAlias × Marks)
      → lookup name c.raw_aliases ≡ o
      → 1 ≤ c.max_depth
      → IsSound recurse
      → IsFresh name marks
      → Keeps marks later
      → Marked later
      → visit_definition c recurse name stack later o ≡ ok p
      → Gives name marks p
  visit_definition-Gives recurse name stack marks later none p raw pos sound fresh keeps h e = cc
  visit_definition-Gives recurse name stack marks later (some def) p raw pos sound fresh keeps h e =
      let (q, x, y) =
        bind_ok (resolve_parent c recurse name stack def.extends later) (finish c name def) e in
      finish-Gives name def marks later q p raw fresh keeps
        (resolve_parent-Gives recurse name stack def.extends later q pos sound h x) y

  visit-Gives :
      (recurse : Text → List Text → Marks → Resolution) (name : Text) (stack : List Text)
      (marks : Marks) (p : ResolvedAlias × Marks)
      → IsSound recurse
      → IsFresh name marks
      → Marked marks
      → visit c recurse name stack marks ≡ ok p
      → Gives name marks p
  visit-Gives recurse name stack marks p sound fresh h e =
      elim (Bool-cases (ltb c.max_depth (length stack + 1))) [
        | inl deep ↦ absurd (err_ok (sym (if_true _ _ _ deep) ∙ e))
        | inr shallow ↦
            visit_definition-Gives recurse name stack marks (insert name visiting marks)
              (lookup name c.raw_aliases) p refl (ground (arith, shallow)) sound fresh
              (Keeps-insert name visiting marks marks fresh (λ v s x. x))
              (Marked-visiting name marks h) (sym (if_false _ _ _ shallow) ∙ e)
      ]

  at_mark-Gives :
      (recurse : Text → List Text → Marks → Resolution) (name : Text) (stack : List Text)
      (marks : Marks) (o : Option Mark) (p : ResolvedAlias × Marks)
      → lookup name marks ≡ o
      → IsSound recurse
      → Marked marks
      → at_mark c recurse name stack marks o ≡ ok p
      → Gives name marks p
  at_mark-Gives recurse name stack marks none p x sound h e =
      visit-Gives recurse name stack marks p sound (λ s y. cc) h e
  at_mark-Gives recurse name stack marks (some unvisited) p x sound h e =
      visit-Gives recurse name stack marks p sound (λ s y. cc) h e
  at_mark-Gives recurse name stack marks (some visiting) p x sound h e = cc
  at_mark-Gives recurse name stack marks (some (resolved r)) p x sound h e =
      subst (Gives name marks) (ok_inj e)
        (record { derived = h name r x; marked = h; keeps = λ v s y. y; noted = x })

  pub resolve_alias-IsSound : (fuel : ℕ) → IsSound (resolve_alias c fuel)
  unfolding resolve_alias
  resolve_alias-IsSound zero name stack marks p h e = cc
  resolve_alias-IsSound (suc fuel) name stack marks p h e =
      at_mark-Gives (resolve_alias c fuel) name stack marks (lookup name marks) p refl
        (resolve_alias-IsSound fuel) h e
