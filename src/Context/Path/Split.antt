-- ===== src/Context/Path/Split.antt =====
-- Texts split at dots and joined by dots.
use open_dynamic_workflow.Base.{
  ℕ, ℕ_eq, subst, ◌≡◌, refl, ap, ◌∙◌, true, false, List, [], ◌∷◌, ◌++◌, Text, All, Bool-cases, inl,
  inr, arith, ◌==◌,
}
use open_dynamic_workflow.Context.Path.{
  is_empty, dot, extend, split, join_dots, starts_with_dot, ends_with_dot, includes_dots,
}
use open_dynamic_workflow.Context.Path.Trim.{has_dot}

abbrev pub Dotless : List Text → Type 0
Dotless parts = All (λ t. has_dot t ≡ false) parts

abbrev pub Filled : List Text → Type 0
Filled parts = All (λ t. is_empty t ≡ false) parts

split-dotless : (t : Text) → has_dot t ≡ false → split t ≡ t ∷ []
unfolding split has_dot
split-dotless [] h = refl
split-dotless (c ∷ rest) h = ground (arith, h, split-dotless rest)

split-part : (t u : Text) → has_dot t ≡ false → split (t ++ dot ∷ u) ≡ t ∷ split u
unfolding split has_dot
split-part [] u h = refl
split-part (c ∷ rest) u h = ground (arith, h, split-part rest u)

pub split-join_dots :
    (t : Text) (ts : List Text) → Dotless (t ∷ ts) → split (join_dots (t ∷ ts)) ≡ t ∷ ts
unfolding join_dots
split-join_dots t [] d = split-dotless t d.0
split-join_dots t (u ∷ rest) d =
    split-part t (join_dots (u ∷ rest)) d.0 ∙ ap (λ ts. t ∷ ts) (split-join_dots u rest d.1)

extend-Dotless :
    (c : ℕ) (parts : List Text) → (c == dot) ≡ false → Dotless parts → Dotless (extend c parts)
unfolding has_dot
extend-Dotless c [] h d = (rw h refl, tt)
extend-Dotless c (part ∷ parts) h d = (rw h d.0, d.1)

pub split-Dotless : (t : Text) → Dotless (split t)
unfolding split has_dot
split-Dotless [] = (refl, tt)
split-Dotless (c ∷ rest) = elim (Bool-cases (c == dot)) [
  | inl e ↦ rw e (refl, split-Dotless rest)
  | inr e ↦ rw e (extend-Dotless c (split rest) e (split-Dotless rest))
]

-- What comes after the first dot.
abbrev after_first : List Text → List Text
after_first [] = []
after_first (t ∷ ts) = ts

abbrev Plain : Text → Type 0
Plain t = (includes_dots t ≡ false) × (ends_with_dot t ≡ false)

after_first-extend : (c : ℕ) (parts : List Text) → after_first (extend c parts) ≡ after_first parts
after_first-extend c [] = refl
after_first-extend c (t ∷ ts) = refl

split-at_dot : (c : ℕ) (rest : Text) → (c == dot) ≡ true → split (c ∷ rest) ≡ [] ∷ split rest
unfolding split
split-at_dot c rest e = rw e

split-before_dot :
    (c : ℕ) (rest : Text) → (c == dot) ≡ false → split (c ∷ rest) ≡ extend c (split rest)
unfolding split
split-before_dot c rest e = rw e

after_first-Filled : (parts : List Text) → Filled parts → Filled (after_first parts)
after_first-Filled [] f = tt
after_first-Filled (t ∷ ts) f = f.1

Filled-starts : (t : Text) → Filled (split t) → starts_with_dot t ≡ false
Filled-starts [] f = refl
Filled-starts (c ∷ rest) f = elim (Bool-cases (c == dot)) [
  | inl e ↦ absurd (cc (subst Filled (split-at_dot c rest e) f).0)
  | inr e ↦ e
]

ends_with_dot-before :
    (c : ℕ) (rest : Text)
    → (rest ≡ [] → (c == dot) ≡ false)
    → ends_with_dot rest ≡ false
    → ends_with_dot (c ∷ rest) ≡ false
unfolding ends_with_dot
ends_with_dot-before c [] h k = h refl
ends_with_dot-before c (d ∷ rest) h k = k

split_nothing : (rest : Text) → rest ≡ [] → Filled (split rest) → ⊥
unfolding split
split_nothing [] e f = cc f.0
split_nothing (c ∷ rest) e f = absurd (cc e)

Filled-Plain : (t : Text) → Filled (after_first (split t)) → Plain t
unfolding includes_dots ends_with_dot
Filled-Plain [] f = (refl, refl)
Filled-Plain (c ∷ rest) f = elim (Bool-cases (c == dot)) [
  | inl e ↦
      let f' = subst (λ parts. Filled (after_first parts)) (split-at_dot c rest e) f in
      let ih = Filled-Plain rest (after_first-Filled (split rest) f') in
      (
        rw (e, Filled-starts rest f', ih.0) refl,
        ends_with_dot-before c rest (λ n. absurd (split_nothing rest n f')) ih.1,
      )
  | inr e ↦
      let f' =
        subst Filled (after_first-extend c (split rest))
          (subst (λ parts. Filled (after_first parts)) (split-before_dot c rest e) f) in
      let ih = Filled-Plain rest f' in
      (rw (e, ih.0) refl, ends_with_dot-before c rest (λ n. e) ih.1)
]

-- The parts of a text are none of them empty: then no dot begins it, ends it or follows another.
pub Filled-dots :
    (t : Text)
    → Filled (split t)
    → (starts_with_dot t ≡ false) × (ends_with_dot t ≡ false) × (includes_dots t ≡ false)
Filled-dots t f =
    let plain = Filled-Plain t (after_first-Filled (split t) f) in
    (Filled-starts t f, plain.1, plain.0)
