-- ===== src/Context/Path/Laws.antt =====
-- What a path is resolved to does not depend on the operation, and has a segment.
use open_dynamic_workflow.Base.{
  ◌≡◌, refl, ap, ◌∙◌, sym, Bool, true, false, Option, none, some, List, [], ◌∷◌, ◌++◌, Text, Result,
  ok, err, if◌then◌else◌, if_intro, ℕ, ◌==◌, ℕ_eq,
}
use open_dynamic_workflow.Context.Operations.{ContextOperation, ContextError}
use open_dynamic_workflow.Context.Path.{
  NormalizedContextPath, dot, extend, split, trim, is_refused, check_segments, normalized_path,
  is_malformed, parse_context_path, join_context_path, is_empty, invalid_path,
}

-- Where the first returns, the second does with the same.
abbrev pub Follows {ℓ} : {A : Type ℓ} → Result ContextError A → Result ContextError A → Type ℓ
Follows {A = A} m n = (x : A) → m ≡ ok x → n ≡ ok x

pub if-Follows {ℓ} :
    {A : Type ℓ} (b : Bool) (m m' n n' : Result ContextError A)
    → Follows m m'
    → Follows n n'
    → Follows (if b then m else n) (if b then m' else n')
if-Follows true m m' n n' f g = f
if-Follows false m m' n n' f g = g

err-Follows {ℓ} : {A : Type ℓ} (e : ContextError) (n : Result ContextError A) → Follows (err e) n
err-Follows e n x h = cc

pub parse_context_path-Follows :
    (op op' : ContextOperation) (path : Text)
    → Follows (parse_context_path op path) (parse_context_path op' path)
unfolding parse_context_path
parse_context_path-Follows op op' path =
    if-Follows (is_malformed path) _ _ _ _ (err-Follows _ _)
      (through (normalized_path path (check_segments (split path))))
  where
    through :
        (o : Option NormalizedContextPath)
        → Follows
            (elim o [ none ↦ err (invalid_path op path) | some p ↦ ok p ])
            (elim o [ none ↦ err (invalid_path op' path) | some p ↦ ok p ])
    through none x h = cc
    through (some p) x h = h

pub join_context_path-Follows :
    (op op' : ContextOperation) (prefix path : Text)
    → Follows (join_context_path op prefix path) (join_context_path op' prefix path)
unfolding join_context_path
join_context_path-Follows op op' prefix path =
    if-Follows (is_empty prefix) _ _ _ _ (parse_context_path-Follows op op' path) (
      if-Follows (is_empty path) _ _ _ _ (parse_context_path-Follows op op' prefix)
        (parse_context_path-Follows op op' (prefix ++ dot ∷ path)))

-- A path that is parsed has a segment.
abbrev pub HasSegment : NormalizedContextPath → Type 0
HasSegment p = (key : Text) × (rest : List Text) × (p.segments ≡ key ∷ rest)

abbrev HasPart : List Text → Type 0
HasPart parts = (t : Text) × (ts : List Text) × (parts ≡ t ∷ ts)

extend-HasPart : (c : ℕ) (parts : List Text) → HasPart (extend c parts)
extend-HasPart c [] = (c ∷ [], [], refl)
extend-HasPart c (part ∷ parts) = (c ∷ part, parts, refl)

split-HasPart : (path : Text) → HasPart (split path)
unfolding split
split-HasPart [] = ([], [], refl)
split-HasPart (c ∷ rest) =
    if_intro HasPart (c == dot) ([], split rest, refl) (extend-HasPart c (split rest))

abbrev Checked : Option (List Text) → Type 0
Checked none = Unit
Checked (some segments) = HasPart segments

check_segments-Checked : (parts : List Text) → HasPart parts → Checked (check_segments parts)
unfolding check_segments
check_segments-Checked parts (t, ts, h) = rw h (through (check_segments ts))
  where
    through :
        (o : Option (List Text))
        → Checked (elim o [
          | none ↦ none
          | some segments ↦ if is_refused (trim t) then none else some (trim t ∷ segments)
        ])
    through none = tt
    through (some segments) = if_intro Checked (is_refused (trim t)) tt (trim t, segments, refl)

pub parse_context_path-HasSegment :
    (op : ContextOperation) (path : Text) (p : NormalizedContextPath)
    → parse_context_path op path ≡ ok p
    → HasSegment p
unfolding parse_context_path
parse_context_path-HasSegment op path p =
    if_intro (λ (m : Result ContextError NormalizedContextPath). m ≡ ok p → HasSegment p)
      (is_malformed path) (λ h. absurd (cc h))
      (through (check_segments (split path))
        (check_segments-Checked (split path) (split-HasPart path)))
  where
    through :
        (o : Option (List Text))
        → Checked o
        → elim (normalized_path path o) [ none ↦ err (invalid_path op path) | some q ↦ ok q ] ≡ ok p
        → HasSegment p
    through none c h = cc
    through (some segments) c h =
        (c.0, c.1, ap (λ m. elim m [ ok q ↦ q.segments | err e ↦ [] ]) (sym h) ∙ c.2)

pub join_context_path-HasSegment :
    (op : ContextOperation) (prefix path : Text) (p : NormalizedContextPath)
    → join_context_path op prefix path ≡ ok p
    → HasSegment p
unfolding join_context_path
join_context_path-HasSegment op prefix path p =
    if_intro (λ (m : Result ContextError NormalizedContextPath). m ≡ ok p → HasSegment p)
      (is_empty prefix) (parse_context_path-HasSegment op path p)
      (if_intro (λ (m : Result ContextError NormalizedContextPath). m ≡ ok p → HasSegment p)
        (is_empty path) (parse_context_path-HasSegment op prefix p)
        (parse_context_path-HasSegment op (prefix ++ dot ∷ path) p))
