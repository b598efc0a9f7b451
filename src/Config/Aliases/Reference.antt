-- ===== src/Config/Aliases/Reference.antt =====
-- The resolution of an alias as the configuration describes it: down the chain of its parents, with
-- no marks, no stack and no order of the names.
use open_dynamic_workflow.Base.{
  ℕ, zero, suc, ◌+◌, ◌-◌, ◌≤◌, Option, none, some, [], ◌∷◌, ◌++◌, ◌≡◌, refl, ap, subst, sym, ◌∙◌,
  Text, lookup, length, length-append, Result, ok, err, bind_ok, arith, ℕ_eq, List_eq, Option-cases,
  inl, inr,
}
use open_dynamic_workflow.Config.Aliases.Data.{AliasConfig, ResolvedAlias, AliasesInput, AliasError}
use open_dynamic_workflow.Config.Aliases.Merge.{
  merge_alias, chain_of_parent, merge_provider, checked_alias,
}

abbrev pub to_option : Result AliasError ResolvedAlias → Option ResolvedAlias
to_option (ok r) = some r
to_option (err e) = none

none-some : {r : ResolvedAlias} → none ≡ some r → ⊥
none-some h = cc

module _ (c : AliasesInput) where
  abbrev pub with_parent : Text → AliasConfig → Option ResolvedAlias → Option ResolvedAlias
  with_parent name def none = none
  with_parent name def (some r) = to_option (merge_alias c name def (some r))

  abbrev pub below :
      (Text → Option ResolvedAlias) → Text → AliasConfig → Option Text → Option ResolvedAlias
  below above name def none = to_option (merge_alias c name def none)
  below above name def (some parent) = with_parent name def (above parent)

  abbrev pub defined :
      (Text → Option ResolvedAlias) → Text → Option AliasConfig → Option ResolvedAlias
  defined above name none = none
  defined above name (some def) = below above name def def.extends

  -- The alias with at most so many aliases in its chain, where there is one.
  unfoldable pub derive : ℕ → Text → Option ResolvedAlias
  derive zero name = none
  derive (suc depth) name = defined (derive depth) name (lookup name c.raw_aliases)

  -- The parent of a definition, one alias shorter.
  abbrev pub IsParent : ℕ → Option Text → Option ResolvedAlias → Type 0
  IsParent depth none parent = parent ≡ none
  IsParent depth (some name) parent =
      (r : ResolvedAlias) × (parent ≡ some r) × (derive depth name ≡ some r)

  -- How an alias is derived.
  pub record Derivation (depth : ℕ) (name : Text) (r : ResolvedAlias) : Type 0 where
    pub def : AliasConfig
    pub raw : lookup name c.raw_aliases ≡ some def
    pub parent : Option ResolvedAlias
    pub from : IsParent depth def.extends parent
    pub merged : merge_alias c name def parent ≡ ok r

  to_option_ok :
      (m : Result AliasError ResolvedAlias) (r : ResolvedAlias) → to_option m ≡ some r → m ≡ ok r
  to_option_ok (ok s) r h = cc
  to_option_ok (err e) r h = cc

  -- A definition with its parent above it.
  Derivation-below :
      (depth : ℕ) (name : Text) (r : ResolvedAlias) (def : AliasConfig)
      → lookup name c.raw_aliases ≡ some def
      → below (derive depth) name def def.extends ≡ some r
      → Derivation depth name r
  Derivation-below depth name r def e h = elim (Option-cases def.extends) [
    | inl x ↦ record {
      def = def;
      raw = e;
      parent = none;
      from = subst (λ o. IsParent depth o none) (sym x) refl;
      merged = to_option_ok _ r (ap (below (derive depth) name def) (sym x) ∙ h);
    }
    | inr (p, x) ↦
        let h1 = ap (below (derive depth) name def) (sym x) ∙ h in
        elim (Option-cases (derive depth p)) [
          | inl y ↦ absurd (none-some (ap (with_parent name def) (sym y) ∙ h1))
          | inr (s, y) ↦ record {
            def = def;
            raw = e;
            parent = some s;
            from = subst (λ o. IsParent depth o (some s)) (sym x) (s, refl, y);
            merged = to_option_ok _ r (ap (with_parent name def) (sym y) ∙ h1);
          }
        ]
  ]

  pub derive-Derivation :
      (depth : ℕ) (name : Text) (r : ResolvedAlias)
      → derive (suc depth) name ≡ some r
      → Derivation depth name r
  unfolding derive
  derive-Derivation depth name r h = elim (Option-cases (lookup name c.raw_aliases)) [
    | inl e ↦ absurd (none-some (ap (defined (derive depth) name) (sym e) ∙ h))
    | inr (def, e) ↦
        Derivation-below depth name r def e (ap (defined (derive depth) name) (sym e) ∙ h)
  ]

  below-derive :
      (depth : ℕ) (name : Text) (r : ResolvedAlias) (def : AliasConfig) (o : Option Text)
      (parent : Option ResolvedAlias)
      → IsParent depth o parent
      → merge_alias c name def parent ≡ ok r
      → below (derive depth) name def o ≡ some r
  below-derive depth name r def none parent from merged =
      ap to_option (ap (merge_alias c name def) (sym from) ∙ merged)
  below-derive depth name r def (some p) parent (s, x, y) merged =
      ap (with_parent name def) y ∙ ap to_option (ap (merge_alias c name def) (sym x) ∙ merged)

  pub Derivation-derive :
      (depth : ℕ) (name : Text) (r : ResolvedAlias)
      → Derivation depth name r
      → derive (suc depth) name ≡ some r
  unfolding derive
  Derivation-derive depth name r d =
      ap (defined (derive depth) name) d.raw
      ∙ below-derive depth name r d.def d.def.extends d.parent d.from d.merged

  pub derive-unknown :
      (depth : ℕ) (name : Text) → lookup name c.raw_aliases ≡ none → derive depth name ≡ none
  unfolding derive
  derive-unknown zero name e = refl
  derive-unknown (suc depth) name e = ap (defined (derive depth) name) e

  -- More aliases are allowed, and the same one comes out.
  IsParent-mono :
      (depth : ℕ) (o : Option Text) (parent : Option ResolvedAlias)
      → ((name : Text) (r : ResolvedAlias)
          → derive depth name ≡ some r
          → derive (suc depth) name ≡ some r)
      → IsParent depth o parent
      → IsParent (suc depth) o parent
  IsParent-mono depth none parent more from = from
  IsParent-mono depth (some p) parent more (s, x, y) = (s, x, more p s y)

  pub derive-zero : (name : Text) → derive zero name ≡ none
  unfolding derive
  derive-zero name = refl

  pub derive-suc :
      (depth : ℕ) (name : Text) (r : ResolvedAlias)
      → derive depth name ≡ some r
      → derive (suc depth) name ≡ some r
  derive-suc zero name r h = absurd (none-some (sym (derive-zero name) ∙ h))
  derive-suc (suc depth) name r h =
      let d = derive-Derivation depth name r h in
      Derivation-derive (suc depth) name r (record {
        def = d.def;
        raw = d.raw;
        parent = d.parent;
        from = IsParent-mono depth d.def.extends d.parent (derive-suc depth) d.from;
        merged = d.merged;
      })

  derive_sum :
      (more depth total : ℕ) (name : Text) (r : ResolvedAlias)
      → more + depth ≡ total
      → derive depth name ≡ some r
      → derive total name ≡ some r
  derive_sum zero depth total name r e h =
      let same : depth ≡ total = omega arith in subst (λ d. derive d name ≡ some r) same h
  derive_sum (suc more) depth total name r e h =
      derive_sum more (suc depth) total name r (omega arith) (derive-suc depth name r h)

  pub derive-le :
      (depth max : ℕ) (name : Text) (r : ResolvedAlias)
      → depth ≤ max
      → derive depth name ≡ some r
      → derive max name ≡ some r
  derive-le depth max name r le h = derive_sum (max - depth) depth max name r (omega arith) h

  pub derive_unique :
      (i j : ℕ) (name : Text) (r s : ResolvedAlias)
      → derive i name ≡ some r
      → derive j name ≡ some s
      → r ≡ s
  derive_unique i j name r s h k =
      let hi = derive-le i (i + j) name r (omega arith) h in
      let hj = derive-le j (i + j) name s (omega arith) k in cc

  -- The chain of an alias is that of its parent with the alias below it.
  checked_alias-chain :
      (name : Text) (def : AliasConfig) (parent : Option ResolvedAlias) (p : Text × Text)
      (r : ResolvedAlias)
      → checked_alias c name def parent p ≡ ok r
      → r.inheritance_chain ≡ chain_of_parent parent ++ name ∷ []
  checked_alias-chain name def parent p r h = ground (arith, h)

  pub merge_alias-chain :
      (name : Text) (def : AliasConfig) (parent : Option ResolvedAlias) (r : ResolvedAlias)
      → merge_alias c name def parent ≡ ok r
      → r.inheritance_chain ≡ chain_of_parent parent ++ name ∷ []
  unfolding merge_alias
  merge_alias-chain name def parent r h =
      let (p, _, e) = bind_ok (merge_provider name def.provider parent) _ h in
      checked_alias-chain name def parent p r e

  pub IsParent-chain :
      (depth : ℕ) (o : Option Text) (parent : Option ResolvedAlias)
      → ((name : Text) (r : ResolvedAlias)
          → derive depth name ≡ some r
          → derive (length r.inheritance_chain) name ≡ some r)
      → IsParent depth o parent
      → IsParent (length (chain_of_parent parent)) o parent
  IsParent-chain depth none parent exact from = from
  IsParent-chain depth (some p) parent exact (s, x, y) =
      let above : derive (length (chain_of_parent parent)) p ≡ some s =
        subst (λ q. derive (length (chain_of_parent q)) p ≡ some s) (sym x) (exact p s y) in
      (s, x, above)

  -- The length of the chain is the depth that it takes.
  pub derive-chain :
      (depth : ℕ) (name : Text) (r : ResolvedAlias)
      → derive depth name ≡ some r
      → derive (length r.inheritance_chain) name ≡ some r
  derive-chain zero name r h = absurd (none-some (sym (derive-zero name) ∙ h))
  derive-chain (suc depth) name r h =
      let d = derive-Derivation depth name r h in
      let chain = merge_alias-chain name d.def d.parent r d.merged in
      let longer : suc (length (chain_of_parent d.parent)) ≡ length r.inheritance_chain =
        omega (arith, ap length chain, length-append (chain_of_parent d.parent) (name ∷ [])) in
      subst (λ n. derive n name ≡ some r) longer
        (Derivation-derive (length (chain_of_parent d.parent)) name r (record {
          def = d.def;
          raw = d.raw;
          parent = d.parent;
          from = IsParent-chain depth d.def.extends d.parent (derive-chain depth) d.from;
          merged = d.merged;
        }))

  IsParent-chain-le :
      (depth : ℕ) (o : Option Text) (parent : Option ResolvedAlias)
      → ((name : Text) (r : ResolvedAlias)
          → derive depth name ≡ some r
          → length r.inheritance_chain ≤ depth)
      → IsParent depth o parent
      → length (chain_of_parent parent) ≤ depth
  IsParent-chain-le depth none parent bound from =
      omega (arith, ap (λ q. length (chain_of_parent q)) from)
  IsParent-chain-le depth (some p) parent bound (s, x, y) =
      omega (arith, bound p s y, ap (λ q. length (chain_of_parent q)) x)

  pub derive-chain-le :
      (depth : ℕ) (name : Text) (r : ResolvedAlias)
      → derive depth name ≡ some r
      → length r.inheritance_chain ≤ depth
  derive-chain-le zero name r h = absurd (none-some (sym (derive-zero name) ∙ h))
  derive-chain-le (suc depth) name r h =
      let d = derive-Derivation depth name r h in
      let chain = merge_alias-chain name d.def d.parent r d.merged in
      let above = IsParent-chain-le depth d.def.extends d.parent (derive-chain-le depth) d.from in
      omega (arith, above, ap length chain, length-append (chain_of_parent d.parent) (name ∷ []))
