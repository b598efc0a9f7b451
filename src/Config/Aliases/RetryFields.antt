-- ===== src/Config/Aliases/RetryFields.antt =====
-- The fields of the retry policies in the registry of config/provider-aliases.ts, and their sources.
use open_dynamic_workflow.Base.{
  ℕ, zero, suc, Bool, Option, none, some, Text, ◌≡◌, ◌≢◌, refl, sym, subst, ◌∙◌, ℕ_eq, List_eq,
}
use open_dynamic_workflow.Retry.Delay.{Backoff}
use open_dynamic_workflow.Config.Aliases.Data.{ResolvedAlias, AliasesInput}
use open_dynamic_workflow.Config.Aliases.Merge.{retry_of_parent, of_parent, chain_of_parent}
use open_dynamic_workflow.Config.Aliases.Reference.{derive, derive-zero, derive-Derivation}
use open_dynamic_workflow.Config.Aliases.Provenance.{merge_alias-passes, IsParent-derive}
use open_dynamic_workflow.Config.Aliases.RetrySources.{
  RetryField, in_force, effective, IsEffective, merge_retry-IsEffective, no_policy-IsEffective,
}

abbrev max_attempts_field : RetryField ℕ
max_attempts_field = record {
  get = λ p. p.max_attempts;
  source = λ s. s.max_attempts;
  canonical = λ p. refl;
  spread = λ base over. refl;
  marked = λ name p s. refl;
  unmarked = refl;
}

abbrev delay_ms_field : RetryField ℕ
delay_ms_field = record {
  get = λ p. p.delay_ms;
  source = λ s. s.delay_ms;
  canonical = λ p. refl;
  spread = λ base over. refl;
  marked = λ name p s. refl;
  unmarked = refl;
}

abbrev backoff_field : RetryField Backoff
backoff_field = record {
  get = λ p. p.backoff;
  source = λ s. s.backoff;
  canonical = λ p. refl;
  spread = λ base over. refl;
  marked = λ name p s. refl;
  unmarked = refl;
}

abbrev max_delay_ms_field : RetryField ℕ
max_delay_ms_field = record {
  get = λ p. p.max_delay_ms;
  source = λ s. s.max_delay_ms;
  canonical = λ p. refl;
  spread = λ base over. refl;
  marked = λ name p s. refl;
  unmarked = refl;
}

abbrev jitter_field : RetryField Bool
jitter_field = record {
  get = λ p. p.jitter;
  source = λ s. s.jitter;
  canonical = λ p. refl;
  spread = λ base over. refl;
  marked = λ name p s. refl;
  unmarked = refl;
}

abbrev disable_delay_field : RetryField Bool
disable_delay_field = record {
  get = λ p. p.disable_delay;
  source = λ s. s.disable_delay;
  canonical = λ p. refl;
  spread = λ base over. refl;
  marked = λ name p s. refl;
  unmarked = refl;
}

none-some : {r : ResolvedAlias} → none ≢ some r
none-some h = cc

module _ (c : AliasesInput) where
  module _ {A : Type 0} (f : RetryField A) where
    abbrev HasEffective : ResolvedAlias → Type 0
    HasEffective r = IsEffective c f r.inheritance_chain r.retry r.origins.retry

    parent-IsEffective :
        (parent : Option ResolvedAlias)
        → ((r : ResolvedAlias) → parent ≡ some r → HasEffective r)
        → IsEffective c f
            (chain_of_parent parent)
            (retry_of_parent parent)
            (of_parent (λ r. r.origins.retry) parent)
    parent-IsEffective none above = no_policy-IsEffective c f
    parent-IsEffective (some r) above = above r refl

    derive-HasEffective :
        (depth : ℕ) (name : Text) (r : ResolvedAlias)
        → derive c depth name ≡ some r
        → HasEffective r
    derive-HasEffective zero name r h = absurd (none-some (sym (derive-zero c name) ∙ h))
    derive-HasEffective (suc depth) name r h =
        let d = derive-Derivation c depth name r h in
        let (p, _, _, same) = merge_alias-passes c name d.def d.parent r d.merged in
        let above = λ (s : ResolvedAlias) (e : d.parent ≡ some s).
          let (n, q) = IsParent-derive c depth d.def.extends d.parent s d.from e in
          derive-HasEffective depth n s q in
        subst HasEffective same (
          merge_retry-IsEffective c f name (chain_of_parent d.parent) d.def
            (retry_of_parent d.parent) (of_parent (λ s. s.origins.retry) d.parent) d.raw
            (parent-IsEffective d.parent above))

  -- Each field of the policy, with its source.
  pub record HasRetry (r : ResolvedAlias) : Type 0 where
    pub max_attempts :
        in_force (λ p. p.max_attempts) (λ s. s.max_attempts) (r.retry, r.origins.retry)
        ≡ effective c (λ p. p.max_attempts) r.inheritance_chain (none, none)
    pub delay_ms :
        in_force (λ p. p.delay_ms) (λ s. s.delay_ms) (r.retry, r.origins.retry)
        ≡ effective c (λ p. p.delay_ms) r.inheritance_chain (none, none)
    pub backoff :
        in_force (λ p. p.backoff) (λ s. s.backoff) (r.retry, r.origins.retry)
        ≡ effective c (λ p. p.backoff) r.inheritance_chain (none, none)
    pub max_delay_ms :
        in_force (λ p. p.max_delay_ms) (λ s. s.max_delay_ms) (r.retry, r.origins.retry)
        ≡ effective c (λ p. p.max_delay_ms) r.inheritance_chain (none, none)
    pub jitter :
        in_force (λ p. p.jitter) (λ s. s.jitter) (r.retry, r.origins.retry)
        ≡ effective c (λ p. p.jitter) r.inheritance_chain (none, none)
    pub disable_delay :
        in_force (λ p. p.disable_delay) (λ s. s.disable_delay) (r.retry, r.origins.retry)
        ≡ effective c (λ p. p.disable_delay) r.inheritance_chain (none, none)

  pub derive-HasRetry :
      (depth : ℕ) (name : Text) (r : ResolvedAlias) → derive c depth name ≡ some r → HasRetry r
  derive-HasRetry depth name r h = record {
    max_attempts = (derive-HasEffective max_attempts_field depth name r h).said;
    delay_ms = (derive-HasEffective delay_ms_field depth name r h).said;
    backoff = (derive-HasEffective backoff_field depth name r h).said;
    max_delay_ms = (derive-HasEffective max_delay_ms_field depth name r h).said;
    jitter = (derive-HasEffective jitter_field depth name r h).said;
    disable_delay = (derive-HasEffective disable_delay_field depth name r h).said;
  }
