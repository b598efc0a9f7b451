-- ===== src/Context/Path/Examples.antt =====
-- The normal form of a concrete path.
use open_dynamic_workflow.Base.{list_eq, ◌≡◌, refl, [], ◌∷◌, codes, ok}
use open_dynamic_workflow.Context.Operations.{ContextOperation}
use open_dynamic_workflow.Context.Path.{NormalizedContextPath, parse_context_path, all_digits}
use open_dynamic_workflow.Context.Path.NormalForm.{normal_form, parse_context_path-normal_form}

abbrev spaced : NormalizedContextPath
spaced = record {
  raw = codes " a . b2";
  normalized = codes "a.b2";
  segments = codes "a" ∷ codes "b2" ∷ [];
}

spaced_is_parsed : parse_context_path ContextOperation.set (codes " a . b2") ≡ ok spaced
unfolding parse_context_path list_eq all_digits
spaced_is_parsed = refl

parse_context_path-normal_form_example :
    parse_context_path ContextOperation.get (codes "a.b2") ≡ ok (normal_form spaced)
parse_context_path-normal_form_example =
    parse_context_path-normal_form ContextOperation.set ContextOperation.get (codes " a . b2")
      spaced spaced_is_parsed
