-- ===== src/Events/Watermark/Synced.antt =====
-- The number from which the events are read, after the snapshots are loaded.
use hinkal_go.Prelude.{
  ◌≤◌, ◌≡◌, refl, sym, arith, true, false, ℕ, List, [], ◌∷◌, All, leb, inl, inr, if◌then◌else◌, ◌⊎◌,
}
use mathlib.Core.Path.{subst}
use native.Mathlib.Decide.{dec_le}
use hinkal_go.Events.Watermark.{Watermark, sync_from_at_most, sync_all}

-- The lowest of a number and a list.
abbrev pub lowest : ℕ → List ℕ → ℕ
lowest v [] = v
lowest v (x ∷ xs) = let rest = lowest x xs in if leb v rest then v else rest

lower :
    (v x : ℕ)
    → sync_from_at_most x (record { value = v; synced = true })
      ≡ record { value = if leb v x then v else x; synced = true }
unfolding sync_from_at_most
lower v x = ground arith

lowest-meet : (v x : ℕ) (xs : List ℕ) → lowest (if leb v x then v else x) xs ≡ lowest v (x ∷ xs)
lowest-meet v x [] = refl
lowest-meet v x (y ∷ ys) = ground arith

sync_all-lowest :
    (v : ℕ) (vs : List ℕ)
    → sync_all vs (record { value = v; synced = true })
      ≡ record { value = lowest v vs; synced = true }
unfolding sync_all
sync_all-lowest v [] = refl
sync_all-lowest v (x ∷ xs) =
    rw (lower v x, sync_all-lowest (if leb v x then v else x) xs, lowest-meet v x xs) refl

-- The number is in the list, and no number of the list is lower.
abbrev pub IsOneOf : ℕ → List ℕ → Type 0
IsOneOf v [] = ⊥
IsOneOf v (x ∷ xs) = (v ≡ x) ⊎ IsOneOf v xs

abbrev pub IsLowest : ℕ → List ℕ → Type 0
IsLowest v xs = IsOneOf v xs × All (λ x. v ≤ x) xs

All-weaken : (a b : ℕ) (xs : List ℕ) → a ≤ b → All (λ x. b ≤ x) xs → All (λ x. a ≤ x) xs
All-weaken a b [] le h = tt
All-weaken a b (x ∷ xs) le (h, hs) = (omega arith, All-weaken a b xs le hs)

lowest-IsLowest : (v : ℕ) (xs : List ℕ) → IsLowest (lowest v xs) (v ∷ xs)
lowest-IsLowest v [] = (inl refl, (omega arith, tt))
lowest-IsLowest v (x ∷ xs) =
    let (here, below) = lowest-IsLowest x xs in
    elim (dec_le v (lowest x xs)) [
      | yes first ↦
          let e : lowest v (x ∷ xs) ≡ v = ground arith in
          subst (λ (t : ℕ). IsLowest t (v ∷ x ∷ xs)) (sym e)
            (inl refl, (omega arith, All-weaken v (lowest x xs) (x ∷ xs) first below))
      | no later ↦
          let e : lowest v (x ∷ xs) ≡ lowest x xs = ground arith in
          subst (λ (t : ℕ). IsLowest t (v ∷ x ∷ xs)) (sym e) (inr here, (omega arith, below))
    ]

-- After the snapshots are loaded, whatever their order and whatever the number before, the watermark
-- is the lowest of their blocks: it is the block of one of them, and no snapshot has a lower one.
pub sync_all-IsLowest :
    (v : ℕ) (vs : List ℕ) (start : ℕ)
    → IsLowest (sync_all (v ∷ vs) (record { value = start; synced = false })).value (v ∷ vs)
unfolding sync_all sync_from_at_most
sync_all-IsLowest v vs start =
    subst (λ (w : Watermark). IsLowest w.value (v ∷ vs)) (sym (sync_all-lowest v vs))
      (lowest-IsLowest v vs)
