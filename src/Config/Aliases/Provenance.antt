-- ===== src/Config/Aliases/Provenance.antt =====
-- Where the settings of a resolved alias come from: `origins` in config/provider-aliases.ts.
use open_dynamic_workflow.Base.{
  ℕ, zero, suc, ◌≡◌, ◌≢◌, true, Option, none, some, List, [], ◌∷◌, ◌++◌, Text, lookup, Result, ok,
  err, bind_ok, arith, Bool-cases, inl, inr, if_true, if_false, ℕ_eq, List_eq, refl, sym, ap, subst,
  ◌∙◌,
}
use open_dynamic_workflow.Config.Aliases.Data.{AliasConfig, ResolvedAlias, AliasesInput, AliasError}
use open_dynamic_workflow.Config.Aliases.Merge.{
  merge_alias, merge_setting, merge_provider, resolved_alias, chain_of_parent, of_parent,
}
use open_dynamic_workflow.Config.Aliases.Sound.{ok_inj}
use open_dynamic_workflow.Config.Aliases.Reference.{
  derive, derive-zero, derive-Derivation, IsParent,
}

abbrev pub value_of : {A : Type 0} → Option (Text × A) → Option A
value_of none = none
value_of (some (name, v)) = some v

abbrev pub source_of : {A : Type 0} → Option (Text × A) → Option Text
source_of none = none
source_of (some (name, v)) = some name

abbrev pub closer : {A : Type 0} → Option (Text × A) → Text → Option A → Option (Text × A)
closer (some p) name o = some p
closer none name (some v) = some (name, v)
closer none name none = none

abbrev below : {A : Type 0} → Option (Text × A) → Option (Text × A) → Option (Text × A)
below none above = above
below (some p) above = some p

none-some : {r : ResolvedAlias} → none ≢ some r
none-some h = cc

throw_ok :
    {e : AliasError} {r : ResolvedAlias} → Path (Result AliasError ResolvedAlias) (err e) (ok r) → ⊥
throw_ok h = cc

closer-below :
    {A : Type 0} (own near : Option (Text × A)) (x : Text) (o : Option A)
    → closer (below own near) x o ≡ below own (closer near x o)
closer-below none near x o = refl
closer-below (some p) near x o = refl

merge_setting-closer :
    {A : Type 0} (name : Text) (own : Option A) (near : Option (Text × A))
    → merge_setting name own (value_of near) (source_of near) ≡ (
      value_of (below (closer none name own) near),
      source_of (below (closer none name own) near),
    )
merge_setting-closer name (some v) near = refl
merge_setting-closer name none none = refl
merge_setting-closer name none (some p) = refl

module _ (c : AliasesInput) where
  module _ {A : Type 0} (field : AliasConfig → Option A) where
    abbrev pub field_of : Option AliasConfig → Option A
    field_of none = none
    field_of (some def) = field def

    -- The last alias of a chain whose definition has the field, with the value.
    unfoldable pub nearest : List Text → Option (Text × A)
    nearest [] = none
    nearest (x ∷ xs) = closer (nearest xs) x (field_of (lookup x c.raw_aliases))

    nearest-append :
        (xs : List Text) (name : Text) (own : Option (Text × A))
        → closer none name (field_of (lookup name c.raw_aliases)) ≡ own
        → nearest (xs ++ name ∷ []) ≡ below own (nearest xs)
    unfolding nearest
    nearest-append [] name none e = e
    nearest-append [] name (some p) e = e
    nearest-append (x ∷ xs) name own e =
        ap (λ m. closer m x (field_of (lookup x c.raw_aliases))) (nearest-append xs name own e)
        ∙ closer-below own (nearest xs) x (field_of (lookup x c.raw_aliases))

    -- The value of a setting and its origin are those of the nearest alias that has it.
    abbrev pub IsNearest : List Text → Option A → Option Text → Type 0
    IsNearest chain v origin = (v ≡ value_of (nearest chain)) × (origin ≡ source_of (nearest chain))

    merge_setting-nearest :
        (name : Text) (chain : List Text) (own v : Option A) (origin : Option Text)
        → field_of (lookup name c.raw_aliases) ≡ own
        → IsNearest chain v origin
        → IsNearest
            (chain ++ name ∷ [])
            ((merge_setting name own v origin).0)
            ((merge_setting name own v origin).1)
    merge_setting-nearest name chain own v origin e h =
        let merged =
          ap (λ u. merge_setting name own u origin) (h.0)
          ∙ ap (merge_setting name own (value_of (nearest chain))) (h.1)
          ∙ merge_setting-closer name own (nearest chain) in
        let near = nearest-append chain name (closer none name own) (ap (closer none name) e) in
        (
          ap (λ p. p.0) merged ∙ ap value_of (sym near),
          ap (λ p. p.1) merged ∙ ap source_of (sym near),
        )

  pub record Settings (r : ResolvedAlias) : Type 0 where
    pub model : IsNearest (λ d. d.model) r.inheritance_chain r.model r.origins.model
    pub thinking_effort :
        IsNearest
          (λ d. d.thinking_effort)
          r.inheritance_chain
          r.thinking_effort
          r.origins.thinking_effort
    pub timeout_ms :
        IsNearest (λ d. d.timeout_ms) r.inheritance_chain r.timeout_ms r.origins.timeout_ms

  -- The provider is that of the definition at the root of the chain, and one there is.
  pub record HasProvider (r : ResolvedAlias) : Type 0 where
    pub root : AliasConfig
    pub raw : lookup r.origins.provider c.raw_aliases ≡ some root
    pub provider : root.provider ≡ some r.provider
    pub extends : root.extends ≡ none
    pub below : List Text
    pub chain : r.inheritance_chain ≡ r.origins.provider ∷ below
    pub known : c.in_providers r.provider ≡ true

  abbrev pub IsExplained : ResolvedAlias → Type 0
  IsExplained r = Settings r × HasProvider r

  parent_setting :
      {A : Type 0} (field : AliasConfig → Option A) (get : ResolvedAlias → Option A)
      (origin : ResolvedAlias → Option Text) (parent : Option ResolvedAlias)
      → ((r : ResolvedAlias)
          → parent ≡ some r
          → IsNearest field r.inheritance_chain (get r) (origin r))
      → IsNearest field (chain_of_parent parent) (of_parent get parent) (of_parent origin parent)
  unfolding nearest
  parent_setting field get origin none above = (refl, refl)
  parent_setting field get origin (some r) above = above r refl

  setting :
      {A : Type 0} (field : AliasConfig → Option A) (get : ResolvedAlias → Option A)
      (origin : ResolvedAlias → Option Text) (name : Text) (def : AliasConfig)
      (parent : Option ResolvedAlias)
      → lookup name c.raw_aliases ≡ some def
      → ((r : ResolvedAlias)
          → parent ≡ some r
          → IsNearest field r.inheritance_chain (get r) (origin r))
      → IsNearest field
          (chain_of_parent parent ++ name ∷ [])
          ((merge_setting name (field def) (of_parent get parent) (of_parent origin parent)).0)
          ((merge_setting name (field def) (of_parent get parent) (of_parent origin parent)).1)
  setting field get origin name def parent raw above =
      merge_setting-nearest field name (chain_of_parent parent) (field def) (of_parent get parent)
        (of_parent origin parent) (ap (field_of field) raw)
        (parent_setting field get origin parent above)

  resolved_alias-Settings :
      (name : Text) (def : AliasConfig) (parent : Option ResolvedAlias) (p : Text × Text)
      → lookup name c.raw_aliases ≡ some def
      → ((r : ResolvedAlias) → parent ≡ some r → Settings r)
      → Settings (resolved_alias c name def parent p)
  resolved_alias-Settings name def parent p raw above = record {
    model =
        setting (λ d. d.model) (λ r. r.model) (λ r. r.origins.model) name def parent raw
          (λ r e. (above r e).model);
    thinking_effort =
        setting (λ d. d.thinking_effort) (λ r. r.thinking_effort) (λ r. r.origins.thinking_effort)
          name def parent raw (λ r e. (above r e).thinking_effort);
    timeout_ms =
        setting (λ d. d.timeout_ms) (λ r. r.timeout_ms) (λ r. r.origins.timeout_ms) name def parent
          raw (λ r e. (above r e).timeout_ms);
  }

  root_provider :
      (name : Text) (own : Option Text) (p : Text × Text)
      → merge_provider name own none ≡ ok p
      → (own ≡ some (p.0)) × (name ≡ p.1)
  root_provider name none p e = cc
  root_provider name (some v) p e =
      let same = ok_inj e in (ap (λ q. some (q.0)) same, ap (λ q. q.1) same)

  inherited_provider :
      (name : Text) (own : Option Text) (r : ResolvedAlias) (p : Text × Text)
      → merge_provider name own (some r) ≡ ok p
      → (r.provider, r.origins.provider) ≡ p
  inherited_provider name none r p e = ok_inj e
  inherited_provider name (some v) r p e = ground (arith, e)

  resolved_alias-HasProvider :
      (name : Text) (def : AliasConfig) (parent : Option ResolvedAlias) (p : Text × Text)
      → lookup name c.raw_aliases ≡ some def
      → merge_provider name def.provider parent ≡ ok p
      → c.in_providers (p.0) ≡ true
      → (parent ≡ none → def.extends ≡ none)
      → ((r : ResolvedAlias) → parent ≡ some r → HasProvider r)
      → HasProvider (resolved_alias c name def parent p)
  resolved_alias-HasProvider name def none p raw provided known root above =
      let (own, source) = root_provider name def.provider p provided in
      record {
        root = def;
        raw = ap (λ n. lookup n c.raw_aliases) (sym source) ∙ raw;
        provider = own;
        extends = root refl;
        below = [];
        chain = ap (λ n. n ∷ []) source;
        known = known;
      }
  resolved_alias-HasProvider name def (some r) p raw provided known root above =
      let same = inherited_provider name def.provider r p provided in
      let a = above r refl in
      record {
        root = a.root;
        raw = ap (λ q. lookup (q.1) c.raw_aliases) (sym same) ∙ a.raw;
        provider = a.provider ∙ ap (λ q. some (q.0)) same;
        extends = a.extends;
        below = a.below ++ name ∷ [];
        chain = ap (λ n. n ++ name ∷ []) a.chain ∙ ap (λ q. q.1 ∷ a.below ++ name ∷ []) same;
        known = known;
      }

  IsParent-none :
      (depth : ℕ) (o : Option Text) (parent : Option ResolvedAlias)
      → IsParent c depth o parent
      → parent ≡ none
      → o ≡ none
  IsParent-none depth none parent from e = refl
  IsParent-none depth (some p) parent (s, x, y) e = cc

  pub IsParent-derive :
      (depth : ℕ) (o : Option Text) (parent : Option ResolvedAlias) (r : ResolvedAlias)
      → IsParent c depth o parent
      → parent ≡ some r
      → (name : Text) × (derive c depth name ≡ some r)
  IsParent-derive depth none parent r from e = cc
  IsParent-derive depth (some p) parent r (s, x, y) e = (p, y ∙ sym x ∙ e)

  -- What the checks of a merge have passed.
  pub merge_alias-passes :
      (name : Text) (def : AliasConfig) (parent : Option ResolvedAlias) (r : ResolvedAlias)
      → merge_alias c name def parent ≡ ok r
      → (p : Text × Text) × (merge_provider name def.provider parent ≡ ok p)
        × (c.in_providers (p.0) ≡ true)
        × (resolved_alias c name def parent p ≡ r)
  unfolding merge_alias
  merge_alias-passes name def parent r h =
      let (p, x, y) = bind_ok (merge_provider name def.provider parent) _ h in
      elim (Bool-cases (c.in_providers (p.0))) [
        | inl e ↦ (p, x, e, ok_inj (sym (if_true _ _ _ e) ∙ y))
        | inr e ↦ absurd (throw_ok (sym (if_false _ _ _ e) ∙ y))
      ]

  pub derive-IsExplained :
      (depth : ℕ) (name : Text) (r : ResolvedAlias) → derive c depth name ≡ some r → IsExplained r
  derive-IsExplained zero name r h = absurd (none-some (sym (derive-zero c name) ∙ h))
  derive-IsExplained (suc depth) name r h =
      let d = derive-Derivation c depth name r h in
      let (p, provided, known, same) = merge_alias-passes name d.def d.parent r d.merged in
      let above = λ (s : ResolvedAlias) (e : d.parent ≡ some s).
        let (n, q) = IsParent-derive depth d.def.extends d.parent s d.from e in
        derive-IsExplained depth n s q in
      subst IsExplained same (
        resolved_alias-Settings name d.def d.parent p d.raw (λ s e. (above s e).0),
        resolved_alias-HasProvider name d.def d.parent p d.raw provided known
            (IsParent-none depth d.def.extends d.parent d.from) (λ s e. (above s e).1),
      )
