-- ===== src/Config/Aliases/Complete.antt =====
-- An alias whose chain is sound and short enough is resolved: the marks and the stack stop no such one.
use open_dynamic_workflow.Base.{
  ℕ, zero, suc, ◌+◌, ◌≤◌, ◌<◌, ◌≡◌, ◌≢◌, false, Option, none, some, List, [], ◌∷◌, ◌++◌, length,
  length-append, Text, lookup, insert, lookup-insert-other, lookup-insert-cases, Result, ok, err,
  ◌>>=◌, arith, ltb, inl, inr, if_false, ℕ_eq, List_eq, refl, sym, ap, subst, ◌∙◌,
}
use open_dynamic_workflow.Config.Aliases.Data.{
  AliasConfig, ResolvedAlias, AliasesInput, Mark, unvisited, visiting, resolved, Stop,
}
use open_dynamic_workflow.Config.Aliases.Merge.{merge_alias, chain_of_parent}
use open_dynamic_workflow.Config.Aliases.{
  Marks, Resolution, lift, check_chain, call_parent, resolve_parent, finish, visit_definition,
  visit, at_mark, resolve_alias,
}
use open_dynamic_workflow.Config.Aliases.Reference.{
  derive, derive-suc, derive_unique, Derivation, derive-Derivation, IsParent, merge_alias-chain,
}
use open_dynamic_workflow.Config.Aliases.Sound.{ok_inj, Marked, Marked-visiting}

unvisited_visiting : unvisited ≢ visiting
unvisited_visiting h = cc

resolved_visiting : {s : ResolvedAlias} → resolved s ≢ visiting
resolved_visiting h = cc

-- A call that returns, then the next.
pub ok_bind {ℓ κ} :
    {E : Type 0} {A : Type ℓ} {B : Type κ} (m : Result E A) (next : A → Result E B) (a : A)
    → m ≡ ok a
    → (m >>= next) ≡ next a
ok_bind (ok b) next a e = ap next (ok_inj e)
ok_bind (err x) next a e = cc

module _ (c : AliasesInput) where
  -- The aliases that are being visited have longer chains than this one.
  abbrev pub Above : ResolvedAlias → Marks → Type 0
  Above r marks =
      (v : Text) (s : ResolvedAlias)
      → lookup v marks ≡ some visiting
      → derive c c.max_depth v ≡ some s
      → length r.inheritance_chain < length s.inheritance_chain

  abbrev pub IsFree : Marks → Marks → Type 0
  IsFree marks later = (v : Text) → lookup v later ≡ some visiting → lookup v marks ≡ some visiting

  pub record Returns {A : Type 0} (m : Result Stop (A × Marks)) (a : A) (marks : Marks)
      : Type 0 where
    pub later : Marks
    pub runs : m ≡ ok (a, later)
    pub free : IsFree marks later

  abbrev pub IsComplete : ℕ → (Text → List Text → Marks → Resolution) → Type 0
  IsComplete fuel recurse =
      (name : Text) (stack : List Text) (marks : Marks) (r : ResolvedAlias)
      → derive c c.max_depth name ≡ some r
      → length stack + length r.inheritance_chain ≤ c.max_depth
      → c.max_depth < length stack + fuel
      → Marked c marks
      → Above r marks
      → Returns (recurse name stack marks) r marks

  -- A derivation at the bound, and the length of its chain.
  pub Derivation-max :
      (name : Text) (r : ResolvedAlias)
      → derive c c.max_depth name ≡ some r
      → Derivation c c.max_depth name r
  Derivation-max name r h =
      derive-Derivation c c.max_depth name r (derive-suc c c.max_depth name r h)

  chain_length :
      (name : Text) (def : AliasConfig) (parent : Option ResolvedAlias) (r : ResolvedAlias)
      → merge_alias c name def parent ≡ ok r
      → length r.inheritance_chain ≡ length (chain_of_parent parent) + 1
  chain_length name def parent r h = omega (
    arith,
    ap length (merge_alias-chain c name def parent r h),
    length-append (chain_of_parent parent) (name ∷ []),
  )

  Above-visiting :
      (name : Text) (r s : ResolvedAlias) (marks : Marks)
      → derive c c.max_depth name ≡ some r
      → length s.inheritance_chain < length r.inheritance_chain
      → Above r marks
      → Above s (insert name visiting marks)
  Above-visiting name r s marks d lt above v t e dv =
      elim (lookup-insert-cases name v visiting visiting marks e) [
        | inl (x, _) ↦
            let same =
              derive_unique c c.max_depth c.max_depth v r t
                (subst (λ u. derive c c.max_depth u ≡ some r) x d) dv in
            omega (arith, lt, ap (λ q. length (q.inheritance_chain)) same)
        | inr (_, x) ↦ omega (arith, lt, above v t x dv)
      ]

  IsFree-visiting :
      (name : Text) (m : Mark) (marks later : Marks)
      → m ≢ visiting
      → IsFree (insert name visiting marks) later
      → IsFree marks (insert name m later)
  IsFree-visiting name m marks later other free v e =
      elim (lookup-insert-cases name v m visiting later e) [
        | inl (_, x) ↦ absurd (other x)
        | inr (n, x) ↦ sym (lookup-insert-other name v visiting marks n) ∙ free v x
      ]

  call_parent-Returns :
      (recurse : Text → List Text → Marks → Resolution) (name parent : Text) (stack : List Text)
      (marks : Marks) (def : AliasConfig) (s : ResolvedAlias)
      → lookup parent c.raw_aliases ≡ some def
      → length s.inheritance_chain + 1 ≤ c.max_depth
      → Returns (recurse parent (stack ++ name ∷ []) marks) s marks
      → Returns
          (call_parent c recurse name stack parent marks (lookup parent c.raw_aliases))
          (some s)
          marks
  call_parent-Returns recurse name parent stack marks def s raw bound g = record {
    later = g.later;
    runs =
        ap (call_parent c recurse name stack parent marks) raw
        ∙ ok_bind (recurse parent (stack ++ name ∷ []) marks) (check_chain c name) (s, g.later)
            g.runs
        ∙ if_false (ltb c.max_depth (length s.inheritance_chain + 1)) _ _ (ground arith);
    free = g.free;
  }

  resolve_parent-Returns :
      (fuel : ℕ) (recurse : Text → List Text → Marks → Resolution) (name : Text) (stack : List Text)
      (marks : Marks) (o : Option Text) (parent : Option ResolvedAlias) (r : ResolvedAlias)
      → IsParent c c.max_depth o parent
      → length (chain_of_parent parent) + 1 ≡ length r.inheritance_chain
      → derive c c.max_depth name ≡ some r
      → length stack + length r.inheritance_chain ≤ c.max_depth
      → c.max_depth < length stack + suc fuel
      → Marked c marks
      → Above r marks
      → IsComplete fuel recurse
      → Returns
          (resolve_parent c recurse name stack o (insert name visiting marks))
          parent
          (insert name visiting marks)
  resolve_parent-Returns fuel recurse name stack marks none parent r from longer d bound enough h
        above complete =
      record {
        later = insert name visiting marks;
        runs = ap (λ (q : Option ResolvedAlias). ok (q, insert name visiting marks)) (sym from);
        free = λ v e. e;
      }
  resolve_parent-Returns fuel recurse name stack marks (some p) parent r (s, x, y) longer d bound
        enough h above complete =
      let e : length s.inheritance_chain + 1 ≡ length r.inheritance_chain =
        ap (λ q. length (chain_of_parent q) + 1) (sym x) ∙ longer in
      let deeper = length-append stack (name ∷ []) in
      let up = Derivation-max p s y in
      subst
        (λ q.
          Returns (resolve_parent c recurse name stack (some p) (insert name visiting marks)) q
            (insert name visiting marks))
        (sym x)
        (call_parent-Returns recurse name p stack (insert name visiting marks) up.def s up.raw
          (omega (arith, e, bound))
          (complete p (stack ++ name ∷ []) (insert name visiting marks) s y
            (omega (arith, e, bound, deeper)) (omega (arith, enough, deeper))
            (Marked-visiting c name marks h)
            (Above-visiting name r s marks d (omega (arith, e)) above)))

  visit_definition-Returns :
      (fuel : ℕ) (recurse : Text → List Text → Marks → Resolution) (name : Text) (stack : List Text)
      (marks : Marks) (r : ResolvedAlias)
      → derive c c.max_depth name ≡ some r
      → length stack + length r.inheritance_chain ≤ c.max_depth
      → c.max_depth < length stack + suc fuel
      → Marked c marks
      → Above r marks
      → IsComplete fuel recurse
      → Returns
          (visit_definition c recurse name stack
            (insert name visiting marks)
            (lookup name c.raw_aliases))
          r
          marks
  visit_definition-Returns fuel recurse name stack marks r d bound enough h above complete =
      let a = Derivation-max name r d in
      let g =
        resolve_parent-Returns fuel recurse name stack marks a.def.extends a.parent r a.from
          (sym (chain_length name a.def a.parent r a.merged)) d bound enough h above complete in
      record {
        later = insert name (resolved r) g.later;
        runs =
            ap (visit_definition c recurse name stack (insert name visiting marks)) a.raw
            ∙ ok_bind
                (resolve_parent c recurse name stack a.def.extends (insert name visiting marks))
                (finish c name a.def) (a.parent, g.later) g.runs
            ∙ ok_bind (lift (merge_alias c name a.def a.parent)) _ r (ap lift a.merged);
        free = IsFree-visiting name (resolved r) marks g.later resolved_visiting g.free;
      }

  visit-Returns :
      (fuel : ℕ) (recurse : Text → List Text → Marks → Resolution) (name : Text) (stack : List Text)
      (marks : Marks) (r : ResolvedAlias)
      → derive c c.max_depth name ≡ some r
      → length stack + length r.inheritance_chain ≤ c.max_depth
      → c.max_depth < length stack + suc fuel
      → Marked c marks
      → Above r marks
      → IsComplete fuel recurse
      → Returns (visit c recurse name stack marks) r marks
  visit-Returns fuel recurse name stack marks r d bound enough h above complete =
      let a = Derivation-max name r d in
      let shallow : ltb c.max_depth (length stack + 1) ≡ false =
        ground (arith, bound, chain_length name a.def a.parent r a.merged) in
      let g =
        visit_definition-Returns fuel recurse name stack marks r d bound enough h above complete in
      record { later = g.later; runs = if_false _ _ _ shallow ∙ g.runs; free = g.free }

  at_mark-Returns :
      (recurse : Text → List Text → Marks → Resolution) (name : Text) (stack : List Text)
      (marks : Marks) (o : Option Mark) (r : ResolvedAlias)
      → lookup name marks ≡ o
      → derive c c.max_depth name ≡ some r
      → Marked c marks
      → Above r marks
      → Returns (visit c recurse name stack marks) r marks
      → Returns (at_mark c recurse name stack marks o) r marks
  at_mark-Returns recurse name stack marks none r x d h above g = g
  at_mark-Returns recurse name stack marks (some unvisited) r x d h above g = g
  at_mark-Returns recurse name stack marks (some visiting) r x d h above g =
      absurd (omega (arith, above name r x d))
  at_mark-Returns recurse name stack marks (some (resolved s)) r x d h above g =
      let same : s ≡ r = derive_unique c c.max_depth c.max_depth name s r (h name s x) d in
      record {
        later = marks;
        runs = ap (λ (q : ResolvedAlias). ok (q, marks)) same;
        free = λ v e. e;
      }

  pub resolve_alias-IsComplete : (fuel : ℕ) → IsComplete fuel (resolve_alias c fuel)
  unfolding resolve_alias
  resolve_alias-IsComplete zero name stack marks r d bound enough h above =
      absurd (omega (arith, bound, enough))
  resolve_alias-IsComplete (suc fuel) name stack marks r d bound enough h above =
      at_mark-Returns (resolve_alias c fuel) name stack marks (lookup name marks) r refl d h above (
        visit-Returns fuel (resolve_alias c fuel) name stack marks r d bound enough h above
          (resolve_alias-IsComplete fuel))
