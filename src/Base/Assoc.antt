-- ===== src/Base/Assoc.antt =====
-- Go maps as association lists. A write replaces the first binding, and a delete drops all.
use mathlib.Core.Path.{◌≡◌, refl}
use mathlib.Core.Option.{Option, none, some}
use mathlib.Core.List.{List, [], ◌∷◌}
use native.Mathlib.Omega.{arith}
use nnel.Base.Tests.{if◌then◌else◌, Eq, ◌==◌}

module _ {ℓ κ} {K : Type ℓ} {V : Type κ} ⦃keys : Eq K⦄ where
  unfoldable pub delete : K → List (K × V) → List (K × V)
  delete k [] = []
  delete k ((j, old) ∷ rest) = if j == k then delete k rest else (j, old) ∷ delete k rest

  unfoldable pub lookup : K → List (K × V) → Option V
  lookup k [] = none
  lookup k ((j, held) ∷ rest) = if j == k then some held else lookup k rest

  pub lookup-delete :
      (k j : K) (m : List (K × V)) → lookup j (delete k m) ≡ (if k == j then none else lookup j m)
  unfolding lookup delete
  lookup-delete k j [] = ground arith
  lookup-delete k j ((i, old) ∷ rest) =
      ground (arith, keys.eqb_iff k j, keys.eqb_iff i k, keys.eqb_iff i j, lookup-delete k j rest)

  unfoldable pub insert : K → V → List (K × V) → List (K × V)
  insert k new [] = (k, new) ∷ []
  insert k new ((j, old) ∷ rest) = if j == k then (k, new) ∷ rest else (j, old) ∷ insert k new rest

  pub lookup-insert :
      (k j : K) (new : V) (m : List (K × V))
      → lookup j (insert k new m) ≡ (if k == j then some new else lookup j m)
  unfolding insert lookup
  lookup-insert k j new [] = refl
  lookup-insert k j new ((i, old) ∷ rest) =
      ground
        (arith, keys.eqb_iff k j, keys.eqb_iff i k, keys.eqb_iff i j, lookup-insert k j new rest)
