-- ===== src/Config/Aliases/Sorting.antt =====
-- `Object.keys` and `sort` of texts, by their code units.
use Prim.Native.Nat.{compare, Ordering}
use open_dynamic_workflow.Base.{
  Bool, true, false, some, List, [], ◌∷◌, ◌≡◌, refl, if◌then◌else◌, ◌==◌, Eq, Text, lookup, arith,
  ℕ_eq, List_eq, sym, ◌≢◌, ◌∙◌, if_true, if_false, Bool-cases, inl, inr,
}

true-false : true ≢ false
true-false h = cc

unfoldable pub text_leb : Text → Text → Bool
text_leb [] t = true
text_leb (x ∷ s) [] = false
text_leb (x ∷ s) (y ∷ t) =
    let rest = text_leb s t in
    elim (compare x y) [ Ordering.lt ↦ true | Ordering.eq ↦ rest | Ordering.gt ↦ false ]

unfoldable pub insert_sorted : Text → List Text → List Text
insert_sorted s [] = s ∷ []
insert_sorted s (t ∷ ts) =
    let rest = insert_sorted s ts in if text_leb s t then s ∷ t ∷ ts else t ∷ rest

unfoldable pub sort : List Text → List Text
sort [] = []
sort (s ∷ ss) = insert_sorted s (sort ss)

unfoldable pub keys {ℓ} : {A : Type ℓ} → List (Text × A) → List Text
keys [] = []
keys ((name, v) ∷ rest) = name ∷ keys rest

module _ {ℓ} {A : Type ℓ} ⦃e : Eq A⦄ where
  unfoldable pub contains : A → List A → Bool
  contains x [] = false
  contains x (y ∷ ys) = let rest = contains x ys in if y == x then true else rest

pub contains-insert_sorted :
    (x s : Text) (ts : List Text)
    → contains x (insert_sorted s ts) ≡ (if s == x then true else contains x ts)
unfolding contains insert_sorted
contains-insert_sorted x s [] = refl
contains-insert_sorted x s (t ∷ ts) = ground (arith, contains-insert_sorted x s ts)

pub contains-sort : (x : Text) (ts : List Text) → contains x (sort ts) ≡ contains x ts
unfolding contains sort
contains-sort x [] = refl
contains-sort x (t ∷ ts) = ground (arith, contains-sort x ts, contains-insert_sorted x t (sort ts))

pub contains-keys {ℓ} :
    {A : Type ℓ} (x : Text) (m : List (Text × A)) (v : A)
    → lookup x m ≡ some v
    → contains x (keys m) ≡ true
unfolding contains keys lookup
contains-keys x [] v h = cc
contains-keys x ((name, w) ∷ m) v h = ground (arith, h, contains-keys x m v)

pub keys-contains {ℓ} :
    {A : Type ℓ} (x : Text) (m : List (Text × A))
    → contains x (keys m) ≡ true
    → (v : A) × (lookup x m ≡ some v)
unfolding contains keys lookup
keys-contains x [] h = absurd (true-false (sym h))
keys-contains x ((name, w) ∷ m) h = elim (Bool-cases (name == x)) [
  | inl e ↦ (w, if_true _ _ _ e)
  | inr e ↦ let (v, k) = keys-contains x m (sym (if_false _ _ _ e) ∙ h) in (v, if_false _ _ _ e ∙ k)
]
