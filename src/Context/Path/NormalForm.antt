-- ===== src/Context/Path/NormalForm.antt =====
-- The normal form of a path is its own normal form.
use open_dynamic_workflow.Base.{
  ℕ_eq, List_eq, subst, ◌≡◌, refl, ap, ◌∙◌, sym, false, Option, none, some, List, [], ◌∷◌, Text,
  All, Result, ok, err, if◌then◌else◌, if_intro, Bool-cases, inl, inr,
}
use open_dynamic_workflow.Context.Operations.{ContextOperation, ContextError}
use open_dynamic_workflow.Context.Path.{
  NormalizedContextPath, is_empty, trim, split, join_dots, is_refused, check_segments,
  normalized_path, is_malformed, invalid_path, parse_context_path,
}
use open_dynamic_workflow.Context.Path.Trim.{
  Opens, trim-opens, trim-trim, trim-Opens, has_dot, trim-has_dot,
}
use open_dynamic_workflow.Context.Path.Split.{
  Dotless, Filled, split-join_dots, split-Dotless, Filled-dots,
}
use open_dynamic_workflow.Context.Path.Laws.{parse_context_path-HasSegment}

-- What is true of each segment.
abbrev IsNormal : Text → Type 0
IsNormal t = (trim t ≡ t) × (has_dot t ≡ false) × (is_refused t ≡ false)

abbrev Normal : Option (List Text) → Type 0
Normal none = Unit
Normal (some segments) = All IsNormal segments

check_segments-Normal : (parts : List Text) → Dotless parts → Normal (check_segments parts)
unfolding check_segments
check_segments-Normal [] d = tt
check_segments-Normal (raw ∷ rest) d =
    through (check_segments rest) (check_segments-Normal rest d.1)
  where
    through :
        (o : Option (List Text))
        → Normal o
        → Normal (elim o [
          | none ↦ none
          | some segments ↦ if is_refused (trim raw) then none else some (trim raw ∷ segments)
        ])
    through none n = tt
    through (some segments) n = elim (Bool-cases (is_refused (trim raw))) [
      | inl e ↦ rw e tt
      | inr e ↦ rw e ((trim-trim raw, trim-has_dot raw d.0, e), n)
    ]

check_segments-again :
    (segments : List Text) → All IsNormal segments → check_segments segments ≡ some segments
unfolding check_segments
check_segments-again [] n = refl
check_segments-again (t ∷ ts) n = rw (check_segments-again ts n.1, n.0.0, n.0.2) refl

normal-Dotless : (segments : List Text) → All IsNormal segments → Dotless segments
normal-Dotless [] n = tt
normal-Dotless (t ∷ ts) n = (n.0.1, normal-Dotless ts n.1)

refused_empty : (t : Text) → is_refused t ≡ false → is_empty t ≡ false
refused_empty [] h = cc h
refused_empty (c ∷ rest) h = refl

normal-Filled : (segments : List Text) → All IsNormal segments → Filled segments
normal-Filled [] n = tt
normal-Filled (t ∷ ts) n = (refused_empty t n.0.2, normal-Filled ts n.1)

join_dots-Opens : (t : Text) (ts : List Text) → Opens t → Opens (join_dots (t ∷ ts))
unfolding join_dots
join_dots-Opens t [] o = o
join_dots-Opens [] (u ∷ rest) o = absurd o
join_dots-Opens (c ∷ t) (u ∷ rest) o = o

Opens-filled : (t : Text) → Opens t → (is_empty t ≡ false) × (is_empty (trim t) ≡ false)
Opens-filled [] o = absurd o
Opens-filled (c ∷ rest) o = (refl, ap is_empty (trim-opens c rest o))

well_formed :
    (t : Text) (ts : List Text) → All IsNormal (t ∷ ts) → is_malformed (join_dots (t ∷ ts)) ≡ false
well_formed t ts n =
    let opens = subst Opens n.0.0 (trim-Opens t (ap is_empty n.0.0 ∙ refused_empty t n.0.2)) in
    let filled = Opens-filled (join_dots (t ∷ ts)) (join_dots-Opens t ts opens) in
    let dots = Filled-dots (join_dots (t ∷ ts)) (
      subst Filled (sym (split-join_dots t ts (normal-Dotless (t ∷ ts) n)))
        (normal-Filled (t ∷ ts) n)) in
    rw (filled.0, filled.1, dots.0, dots.1, dots.2) refl

-- What a path that is parsed has gone through.
parsed :
    (op : ContextOperation) (path : Text) (p : NormalizedContextPath)
    → parse_context_path op path ≡ ok p
    → (check_segments (split path) ≡ some p.segments) × (p.normalized ≡ join_dots p.segments)
unfolding parse_context_path
parsed op path p =
    if_intro
      (λ (m : Result ContextError NormalizedContextPath).
        m ≡ ok p
        → (check_segments (split path) ≡ some p.segments) × (p.normalized ≡ join_dots p.segments))
      (is_malformed path) (λ h. absurd (cc h)) (through (check_segments (split path)))
  where
    through :
        (o : Option (List Text))
        → elim (normalized_path path o) [ none ↦ err (invalid_path op path) | some q ↦ ok q ] ≡ ok p
        → (o ≡ some p.segments) × (p.normalized ≡ join_dots p.segments)
    through none h = absurd (cc h)
    through (some segments) h =
        let same = ap (λ m. elim m [ ok q ↦ q | err e ↦ p ]) h in
        (
          ap (λ (q : NormalizedContextPath). some q.segments) same,
          sym (ap (λ (q : NormalizedContextPath). q.normalized) same)
              ∙ ap (λ (q : NormalizedContextPath). join_dots q.segments) same,
        )

abbrev pub normal_form : NormalizedContextPath → NormalizedContextPath
normal_form p = record { raw = p.normalized; normalized = p.normalized; segments = p.segments }

parse-joined :
    (op : ContextOperation) (t : Text) (ts : List Text)
    → All IsNormal (t ∷ ts)
    → parse_context_path op (join_dots (t ∷ ts))
      ≡ ok record { raw = join_dots (t ∷ ts); normalized = join_dots (t ∷ ts); segments = t ∷ ts }
unfolding parse_context_path
parse-joined op t ts n =
    rw
      (
        parse_context_path,
        well_formed t ts n,
        split-join_dots t ts (normal-Dotless (t ∷ ts) n),
        check_segments-again (t ∷ ts) n,
      )
      refl

-- The normal form of a path that is accepted is accepted, whatever the operation, has the same segments and
-- is its own normal form.
pub parse_context_path-normal_form :
    (op op' : ContextOperation) (path : Text) (p : NormalizedContextPath)
    → parse_context_path op path ≡ ok p
    → parse_context_path op' p.normalized ≡ ok (normal_form p)
parse_context_path-normal_form op op' path p h =
    let (checked, joined) = parsed op path p h in
    let (t, ts, e) = parse_context_path-HasSegment op path p h in
    let n = subst Normal checked (check_segments-Normal (split path) (split-Dotless path)) in
    subst
      (λ (u : Text).
        parse_context_path op' u ≡ ok record { raw = u; normalized = u; segments = p.segments })
      (sym joined)
      (subst
        (λ (segments : List Text).
          All IsNormal segments
          → parse_context_path op' (join_dots segments)
            ≡ ok record {
              raw = join_dots segments;
              normalized = join_dots segments;
              segments = segments;
            })
        (sym e) (parse-joined op' t ts) n)
