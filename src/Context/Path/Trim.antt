-- ===== src/Context/Path/Trim.antt =====
-- Trimmed texts.
use open_dynamic_workflow.Base.{
  ℕ, ℕ_eq, ◌≡◌, refl, ap, ◌∙◌, sym, Bool, false, ◌||◌, [], ◌∷◌, Text, Bool-cases, inl, inr, arith,
  ◌==◌, ◌⊎◌,
}
use open_dynamic_workflow.Context.Path.{is_space, trim_start, trim_end, trim, is_empty, dot}

-- It begins with what is no white space.
abbrev pub Opens : Text → Type 0
Opens [] = ⊥
Opens (c ∷ rest) = is_space c ≡ false

abbrev IsTrimmedStart : Text → Type 0
IsTrimmedStart t = (t ≡ []) ⊎ Opens t

trim_start-Opens : (t : Text) → IsTrimmedStart (trim_start t)
unfolding trim_start
trim_start-Opens [] = inl refl
trim_start-Opens (c ∷ rest) = elim (Bool-cases (is_space c)) [
  | inl e ↦ rw e (trim_start-Opens rest)
  | inr e ↦ rw e (inr e)
]

trim_end-opens :
    (c : ℕ) (rest : Text) → is_space c ≡ false → trim_end (c ∷ rest) ≡ c ∷ trim_end rest
unfolding trim_end
trim_end-opens c rest h = ground (arith, h)

trim_end-trim_end : (t : Text) → trim_end (trim_end t) ≡ trim_end t
unfolding trim_end
trim_end-trim_end [] = refl
trim_end-trim_end (c ∷ rest) = ground (arith, trim_end-trim_end rest)

trim_start-opens : (c : ℕ) (rest : Text) → is_space c ≡ false → trim_start (c ∷ rest) ≡ c ∷ rest
unfolding trim_start
trim_start-opens c rest h = ground (arith, h)

pub trim-opens : (c : ℕ) (rest : Text) → is_space c ≡ false → trim (c ∷ rest) ≡ c ∷ trim_end rest
unfolding trim
trim-opens c rest h = ap trim_end (trim_start-opens c rest h) ∙ trim_end-opens c rest h

-- A trimmed text is empty, or begins with what is no white space and is trimmed to itself.
pub trim-trim : (t : Text) → trim (trim t) ≡ trim t
unfolding trim
trim-trim t = through (trim_start t) (trim_start-Opens t)
  where
    through : (s : Text) → IsTrimmedStart s → trim_end (trim_start (trim_end s)) ≡ trim_end s
    through [] h = refl
    through (c ∷ rest) (inl e) = absurd (cc e)
    through (c ∷ rest) (inr e) =
        ap (λ s. trim_end (trim_start s)) (trim_end-opens c rest e)
        ∙ ap trim_end (trim_start-opens c (trim_end rest) e)
        ∙ ap trim_end (sym (trim_end-opens c rest e))
        ∙ trim_end-trim_end (c ∷ rest)

pub trim-Opens : (t : Text) → is_empty (trim t) ≡ false → Opens (trim t)
unfolding trim
trim-Opens t = through (trim_start t) (trim_start-Opens t)
  where
    through : (s : Text) → IsTrimmedStart s → is_empty (trim_end s) ≡ false → Opens (trim_end s)
    through [] h k = absurd (cc k)
    through (c ∷ rest) (inl e) k = absurd (cc e)
    through (c ∷ rest) (inr e) k = rw (trim_end-opens c rest e) e

-- No dot among the code units.
unfoldable pub has_dot : Text → Bool
has_dot [] = false
has_dot (c ∷ rest) = c == dot || has_dot rest

trim_start-has_dot : (t : Text) → has_dot t ≡ false → has_dot (trim_start t) ≡ false
unfolding trim_start has_dot
trim_start-has_dot [] h = refl
trim_start-has_dot (c ∷ rest) h = ground (arith, h, trim_start-has_dot rest)

trim_end-has_dot : (t : Text) → has_dot t ≡ false → has_dot (trim_end t) ≡ false
unfolding trim_end has_dot
trim_end-has_dot [] h = refl
trim_end-has_dot (c ∷ rest) h = ground (arith, h, trim_end-has_dot rest)

pub trim-has_dot : (t : Text) → has_dot t ≡ false → has_dot (trim t) ≡ false
unfolding trim
trim-has_dot t h = trim_end-has_dot (trim_start t) (trim_start-has_dot t h)
