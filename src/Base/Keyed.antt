-- ===== src/Base/Keyed.antt =====
-- Maps from keys to values as the code's `Map` and plain objects keep them: in the order of first
-- insertion, a write to a key that is there keeps its place.
use Prim.Native.Nat.{◌+◌, ◌≤◌}
use mathlib.Core.Path.{◌≡◌, refl, ◌∙◌}
use mathlib.Core.Logic.{◌≢◌, ◌⊎◌}
use mathlib.Core.Option.{Option, none, some}
use mathlib.Core.List.{List, [], ◌∷◌}
use native.Mathlib.Omega.{arith}
use open_dynamic_workflow.Base.Lists.{length}
use open_dynamic_workflow.Base.Tests.{if◌then◌else◌, Eq, ◌==◌, eq_refl, if_true}

module _ {ℓ κ} {K : Type ℓ} {V : Type κ} ⦃e : Eq K⦄ where
  unfoldable pub lookup : K → List (K × V) → Option V
  lookup key [] = none
  lookup key ((i, found) ∷ rest) = if i == key then some found else lookup key rest

  unfoldable pub insert : K → V → List (K × V) → List (K × V)
  insert key v [] = (key, v) ∷ []
  insert key v ((i, old) ∷ rest) = if i == key then (i, v) ∷ rest else (i, old) ∷ insert key v rest

  -- `delete` removes the one entry of the key; all entries of it, so that no law asks for
  -- distinct keys.
  unfoldable pub remove : K → List (K × V) → List (K × V)
  remove k [] = []
  remove k ((j, w) ∷ m) = let rest = remove k m in if j == k then rest else (j, w) ∷ rest

  pub lookup-insert :
      (key other : K) (v : V) (m : List (K × V))
      → lookup other (insert key v m) ≡ (if key == other then some v else lookup other m)
  unfolding insert lookup
  lookup-insert key other v [] = refl
  lookup-insert key other v ((i, old) ∷ rest) =
      let ih = lookup-insert key other v rest in
      ground (arith, ih, e.same_iff i other, e.same_iff i key, e.same_iff key other)

  pub lookup-remove :
      (k j : K) (m : List (K × V)) → lookup j (remove k m) ≡ (if k == j then none else lookup j m)
  unfolding lookup remove
  lookup-remove k j [] = ground arith
  lookup-remove k j ((i, w) ∷ m) =
      ground (arith, e.same_iff k j, e.same_iff i k, e.same_iff i j, lookup-remove k j m)

  pub length-insert-le : (k : K) (v : V) (m : List (K × V)) → length (insert k v m) ≤ length m + 1
  unfolding insert
  length-insert-le k v [] = omega arith
  length-insert-le k v ((j, w) ∷ m) = ground (arith, length-insert-le k v m)

  pub length-remove-le : (k : K) (m : List (K × V)) → length (remove k m) ≤ length m
  unfolding remove
  length-remove-le k [] = omega arith
  length-remove-le k ((j, w) ∷ m) = ground (arith, length-remove-le k m)

  pub lookup-insert-same :
      (key : K) (v : V) (m : List (K × V)) → lookup key (insert key v m) ≡ some v
  lookup-insert-same key v m =
      lookup-insert key key v m ∙ if_true (key == key) (some v) (lookup key m) (eq_refl key)

  -- What a map holds at a key after a write: what was written, or what it held.
  pub lookup-insert-cases :
      (key other : K) (v w : V) (m : List (K × V))
      → lookup other (insert key v m) ≡ some w
      → ((key ≡ other) × (v ≡ w)) ⊎ ((key ≢ other) × (lookup other m ≡ some w))
  lookup-insert-cases key other v w m h =
      ground (arith, h, lookup-insert key other v m, e.same_iff key other)

  pub lookup-insert-other :
      (key other : K) (v : V) (m : List (K × V))
      → key ≢ other
      → lookup other (insert key v m) ≡ lookup other m
  lookup-insert-other key other v m h =
      ground (arith, h, lookup-insert key other v m, e.same_iff key other)
