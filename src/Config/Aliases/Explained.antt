-- ===== src/Config/Aliases/Explained.antt =====
-- The origins of the settings in the registry of config/provider-aliases.ts.
use open_dynamic_workflow.Base.{◌≡◌, some, List, Text, lookup, ok, sym, ◌∙◌, ℕ_eq, List_eq}
use open_dynamic_workflow.Config.Aliases.Data.{ResolvedAlias, AliasesInput}
use open_dynamic_workflow.Config.Aliases.{resolve_provider_aliases}
use open_dynamic_workflow.Config.Aliases.Provenance.{IsExplained, derive-IsExplained}
use open_dynamic_workflow.Config.Aliases.RetryFields.{HasRetry, derive-HasRetry}
use open_dynamic_workflow.Config.Aliases.Registry.{resolve_provider_aliases-derive}

-- Where the resolution returns, the model, the effort and the timeout of an alias in the registry
-- are those of the nearest alias in its chain that has them, null counting as a model, with that
-- alias as their origin, and they have no origin where none of the chain has them; each field of
-- its retry policy, with its source, is that of the nearest alias in its chain whose policy has
-- the field, one that is there as undefined having a source and no value, unless an alias further
-- down turns retries off, where there is neither; its provider is the one that the root of its
-- chain, which extends nothing, names, and is one of the providers.
pub resolve_provider_aliases-IsExplained :
    (c : AliasesInput) (reg : List (Text × ResolvedAlias)) (name : Text) (r : ResolvedAlias)
    → resolve_provider_aliases c ≡ ok reg
    → lookup name reg ≡ some r
    → IsExplained c r × HasRetry c r
resolve_provider_aliases-IsExplained c reg name r h e =
    let d = sym ((resolve_provider_aliases-derive c reg h).0 name) ∙ e in
    (derive-IsExplained c c.max_depth name r d, derive-HasRetry c c.max_depth name r d)
