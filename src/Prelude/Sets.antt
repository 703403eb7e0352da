-- ===== src/Prelude/Sets.antt =====
-- Go's `map[string]struct{}`: a list without repetitions.
use mathlib.Core.Path.{◌≡◌, refl}
use mathlib.Core.Logic.{inl, inr}
use mathlib.Core.Bool.{Bool, true, false, ◌||◌}
use mathlib.Core.List.{List, [], ◌∷◌}
use native.Mathlib.Omega.{arith}
use Prim.Native.Nat.{suc}
use hinkal_go.Prelude.Tests.{Eq, ◌==◌, if◌then◌else◌, Bool-cases}
use hinkal_go.Prelude.Lists.{length, All}

module _ {A : Type 0} ⦃e : Eq A⦄ where
  -- `_, ok := set[a]`
  abbrev pub is_member : A → List A → Bool
  is_member a [] = false
  is_member a (x ∷ xs) = (x == a) || is_member a xs

  -- `set[a] = struct{}{}`
  abbrev pub add_member : A → List A → List A
  add_member a xs = if is_member a xs then xs else a ∷ xs

  -- No element stands twice.
  abbrev pub IsDistinct : List A → Type 0
  IsDistinct [] = Unit
  IsDistinct (x ∷ xs) = (is_member x xs ≡ false) × IsDistinct xs

  -- The list without the first occurrence of an element.
  abbrev remove_first : A → List A → List A
  remove_first a [] = []
  remove_first a (x ∷ xs) = let rest = remove_first a xs in if x == a then xs else x ∷ rest

  pub is_member-add_member : (a : A) (xs : List A) → is_member a (add_member a xs) ≡ true
  is_member-add_member a xs = ground (arith, e.equals_iff a a)

  pub is_member-kept :
      (a b : A) (xs : List A) → is_member b xs ≡ true → is_member b (add_member a xs) ≡ true
  is_member-kept a b xs h = ground arith

  pub add_member-IsDistinct : (a : A) (xs : List A) → IsDistinct xs → IsDistinct (add_member a xs)
  add_member-IsDistinct a xs h = elim (Bool-cases (is_member a xs)) [
    | inl there ↦ rw there h
    | inr missing ↦ rw missing (missing, h)
  ]

  length-remove_first :
      (a : A) (xs : List A) → is_member a xs ≡ true → length xs ≡ suc (length (remove_first a xs))
  length-remove_first a [] h = cc
  length-remove_first a (x ∷ xs) h = elim (Bool-cases (x == a)) [
    | inl same ↦ rw same refl
    | inr other ↦ rw other (omega (arith, length-remove_first a xs (rw other at h)))
  ]

  is_member-remove_first :
      (a b : A) (xs : List A)
      → (a == b) ≡ false
      → is_member b xs ≡ true
      → is_member b (remove_first a xs) ≡ true
  is_member-remove_first a b [] apart h = h
  is_member-remove_first a b (x ∷ xs) apart h =
      ground
        (arith, is_member-remove_first a b xs, e.equals_iff x a, e.equals_iff x b, e.equals_iff a b)

  not_member-remove_first :
      (a b : A) (xs : List A) → is_member b xs ≡ false → is_member b (remove_first a xs) ≡ false
  not_member-remove_first a b [] h = refl
  not_member-remove_first a b (x ∷ xs) h = ground (arith, not_member-remove_first a b xs)

  remove_first-IsDistinct : (a : A) (xs : List A) → IsDistinct xs → IsDistinct (remove_first a xs)
  remove_first-IsDistinct a [] h = tt
  remove_first-IsDistinct a (x ∷ xs) (new, h) = elim (Bool-cases (x == a)) [
    | inl same ↦ rw same h
    | inr other ↦ rw other (not_member-remove_first a x xs new, remove_first-IsDistinct a xs h)
  ]

  -- Elements that are apart from one and lie in a set are in the set without it.
  still_members :
      (a : A) (xs ys : List A)
      → is_member a xs ≡ false
      → All (λ x. is_member x ys ≡ true) xs
      → All (λ x. is_member x (remove_first a ys) ≡ true) xs
  still_members a [] ys h all = tt
  still_members a (x ∷ xs) ys h (there, all) = (
    is_member-remove_first a x ys (ground (arith, e.equals_iff x a, e.equals_iff a x)) there,
    still_members a xs ys (ground arith) all,
  )

  -- A list without repetitions whose elements all lie in a set of the same size is all of the set.
  pub every_member :
      (xs ys : List A)
      → IsDistinct xs
      → IsDistinct ys
      → All (λ x. is_member x ys ≡ true) xs
      → length ys ≡ length xs
      → (a : A) → is_member a ys ≡ true
      → is_member a xs ≡ true
  every_member [] [] hx hy all same a h = cc
  every_member [] (y ∷ ys) hx hy all same a h = absurd (omega arith)
  every_member (x ∷ xs) ys (new, hx) hy (there, all) same a h = elim (Bool-cases (x == a)) [
    | inl is ↦ rw is refl
    | inr other ↦ rw other (
        every_member xs (remove_first x ys) hx (remove_first-IsDistinct x ys hy)
          (still_members x xs ys new all) (omega (arith, length-remove_first x ys there)) a
          (is_member-remove_first x a ys other h))
  ]
