-- ===== src/Prelude/Dict.antt =====
-- Go maps as association lists. A lookup takes the first entry; iteration order is not used.
use hinkal_go.Prelude.Tests.{Eq, ◌==◌, if◌then◌else◌}
use hinkal_go.Prelude.Lists.{}
use mathlib.Core.Path.{◌≡◌, refl}
use mathlib.Core.Bool.{Bool, true, false}
use mathlib.Core.Option.{Option, none, some}
use mathlib.Core.List.{List, [], ◌∷◌}
use native.Mathlib.Omega.{arith}

module _ {ℓ} {K : Type 0} {V : Type ℓ} ⦃e : Eq K⦄ where
  -- `v, ok := m[k]`
  unfoldable pub lookup : K → List (K × V) → Option V
  lookup k [] = none
  lookup k ((key, v) ∷ entries) = let later = lookup k entries in if key == k then some v else later

  -- `m[k] = v`
  unfoldable pub insert : K → V → List (K × V) → List (K × V)
  insert k v [] = (k, v) ∷ []
  insert k v ((key, old) ∷ entries) =
      let later = insert k v entries in if key == k then (k, v) ∷ entries else (key, old) ∷ later

  -- `delete(m, k)`
  unfoldable pub erase : K → List (K × V) → List (K × V)
  erase k [] = []
  erase k ((j, w) ∷ m) = let rest = erase k m in if j == k then rest else (j, w) ∷ rest

  -- `_, ok := m[k]`
  unfoldable pub contains : K → List (K × V) → Bool
  unfolding lookup
  contains k m = elim (lookup k m) [ none ↦ false | some _ ↦ true ]

  pub lookup-insert :
      (written read : K) (v : V) (entries : List (K × V))
      → lookup read (insert written v entries)
        ≡ (if written == read then some v else lookup read entries)
  unfolding insert lookup
  lookup-insert written read v [] = refl
  lookup-insert written read v ((key, old) ∷ entries) = ground (
    arith,
    lookup-insert written read v entries,
    e.equals_iff key written,
    e.equals_iff key read,
    e.equals_iff written read,
  )

  pub lookup-erase :
      (k j : K) (m : List (K × V)) → lookup j (erase k m) ≡ (if k == j then none else lookup j m)
  unfolding lookup erase
  lookup-erase k j [] = ground arith
  lookup-erase k j ((i, w) ∷ m) =
      ground (arith, e.equals_iff k j, e.equals_iff i k, e.equals_iff i j, lookup-erase k j m)
