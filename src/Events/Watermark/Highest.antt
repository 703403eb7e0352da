-- ===== src/Events/Watermark/Highest.antt =====
-- The value after calls of `advance` that overlap.
use hinkal_go.Prelude.{
  ℕ, zero, suc, ◌≤◌, ◌<◌, ◌≡◌, refl, sym, ap, ◌∙◌, arith, List, [], ◌∷◌, map, All, ltb, leb, ◌==◌,
  nat_eq, true, false, if◌then◌else◌,
}
use mathlib.Core.Path.{subst}
use native.Mathlib.Decide.{ℕ_discrete, dec_le}
use hinkal_go.Events.Watermark.{
  Call, loading, swapping, returned, advance_step, advance_at, advance_all,
}

abbrev pub target : Call → ℕ
target (loading v) = v
target (swapping v cur) = v
target (returned v) = v

abbrev pub IsReturned : Call → Type 0
IsReturned (returned v) = Unit
IsReturned (loading v) = ⊥
IsReturned (swapping v cur) = ⊥

abbrev pub highest : ℕ → List ℕ → ℕ
highest start [] = start
highest start (t ∷ ts) = let rest = highest start ts in if ltb rest t then t else rest

-- A call that is about to swap wants more than it read; one that has returned was served.
pub leb-yes : (a b : ℕ) → a ≤ b → leb a b ≡ true
leb-yes a b le = ground arith

pub leb-no : (a b : ℕ) → b < a → leb a b ≡ false
leb-no a b lt = ground arith

abbrev IsServed : ℕ → Call → Type 0
IsServed value (loading v) = Unit
IsServed value (swapping v cur) = cur < v
IsServed value (returned v) = v ≤ value

abbrev Advanced : ℕ → Call → ℕ → Call → Type 0
Advanced value c value' c' =
    (value ≤ value')
    × (target c' ≡ target c)
    × IsServed value' c'
    × ((bound : ℕ) → value ≤ bound → target c ≤ bound → value' ≤ bound)

step-Advanced :
    (value : ℕ) (c : Call)
    → IsServed value c
    → Advanced value c (advance_step value c).0 (advance_step value c).1
unfolding advance_step
step-Advanced value (loading v) served = elim (dec_le v value) [
  | yes le ↦ rw (leb-yes v value le) (omega arith, refl, le, λ bound h k. h)
  | no gt ↦ rw (leb-no v value (omega arith)) (omega arith, refl, omega arith, λ bound h k. h)
]
step-Advanced value (swapping v cur) served = elim (ℕ_discrete value cur) [
  | yes e ↦
      let same : (value == cur) ≡ true = ground arith in
      rw same (omega arith, refl, omega arith, λ bound h k. k)
  | no other ↦
      let differ : (value == cur) ≡ false = ground arith in
      rw differ (omega arith, refl, tt, λ bound h k. h)
]
step-Advanced value (returned v) served = (omega arith, refl, served, λ bound h k. h)

IsServed-later : (a b : ℕ) (cs : List Call) → a ≤ b → All (IsServed a) cs → All (IsServed b) cs
IsServed-later a b [] le h = tt
IsServed-later a b (loading v ∷ cs) le (h, hs) = (h, IsServed-later a b cs le hs)
IsServed-later a b (swapping v cur ∷ cs) le (h, hs) = (h, IsServed-later a b cs le hs)
IsServed-later a b (returned v ∷ cs) le (h, hs) = (omega arith, IsServed-later a b cs le hs)

IsServed-one : (a b : ℕ) (c : Call) → a ≤ b → IsServed a c → IsServed b c
IsServed-one a b c le h = (IsServed-later a b (c ∷ []) le (h, tt)).0

-- What a step of the calls keeps.
abbrev AllAdvanced : ℕ → List Call → ℕ × List Call → Type 0
AllAdvanced value cs (value', cs') =
    (value ≤ value')
    × (map target cs' ≡ map target cs)
    × All (IsServed value') cs'
    × ((bound : ℕ) → value ≤ bound → All (λ t. t ≤ bound) (map target cs) → value' ≤ bound)

at-AllAdvanced :
    (value place : ℕ) (cs : List Call)
    → All (IsServed value) cs
    → AllAdvanced value cs (advance_at value place cs)
unfolding advance_at
at-AllAdvanced value zero [] served = (omega arith, refl, tt, λ bound h k. h)
at-AllAdvanced value (suc place) [] served = (omega arith, refl, tt, λ bound h k. h)
at-AllAdvanced value zero (c ∷ cs) (s, served) =
    let (le, same, s', bounded) = step-Advanced value c s in
    (
      le,
      ap (λ (t : ℕ). t ∷ map target cs) same,
      (s', IsServed-later value (advance_step value c).0 cs le served),
      λ bound h k. bounded bound h k.0,
    )
at-AllAdvanced value (suc place) (c ∷ cs) (s, served) =
    let (le, same, served', bounded) = at-AllAdvanced value place cs served in
    (
      le,
      ap (λ (ts : List ℕ). target c ∷ ts) same,
      (IsServed-one value (advance_at value place cs).0 c le s, served'),
      λ bound h k. bounded bound h k.1,
    )

run-AllAdvanced :
    (schedule : List ℕ) (value : ℕ) (cs : List Call)
    → All (IsServed value) cs
    → AllAdvanced value cs (advance_all schedule value cs)
unfolding advance_all
run-AllAdvanced [] value cs served = (omega arith, refl, served, λ bound h k. h)
run-AllAdvanced (place ∷ schedule) value cs served =
    let (le, same, served', bounded) = at-AllAdvanced value place cs served in
    let value' = (advance_at value place cs).0 in
    let cs' = (advance_at value place cs).1 in
    let (le', same', served'', bounded') = run-AllAdvanced schedule value' cs' served' in
    (
      omega arith,
      same' ∙ same,
      served'',
      λ bound h k.
          bounded' bound (bounded bound h k)
            (subst (λ (ts : List ℕ). All (λ t. t ≤ bound) ts) (sym same) k),
    )

below_later : (a b : ℕ) (ts : List ℕ) → a ≤ b → All (λ t. t ≤ a) ts → All (λ t. t ≤ b) ts
below_later a b [] le h = tt
below_later a b (t ∷ ts) le (h, hs) = (omega arith, below_later a b ts le hs)

below_highest :
    (start : ℕ) (ts : List ℕ) → (start ≤ highest start ts) × All (λ t. t ≤ highest start ts) ts
below_highest start [] = (omega arith, tt)
below_highest start (t ∷ ts) =
    let (le, below) = below_highest start ts in
    let up : highest start ts ≤ highest start (t ∷ ts) = ground arith in
    (
      omega arith,
      (ground arith, below_later (highest start ts) (highest start (t ∷ ts)) ts up below),
    )

highest_below :
    (start bound : ℕ) (ts : List ℕ)
    → start ≤ bound
    → All (λ t. t ≤ bound) ts
    → highest start ts ≤ bound
highest_below start bound [] le h = le
highest_below start bound (t ∷ ts) le (h, hs) =
    let rest = highest_below start bound ts le hs in ground arith

served_below :
    (value : ℕ) (cs : List Call)
    → All IsReturned cs
    → All (IsServed value) cs
    → All (λ t. t ≤ value) (map target cs)
served_below value [] r h = tt
served_below value (returned v ∷ cs) (r, rs) (h, hs) = (h, served_below value cs rs hs)
served_below value (loading v ∷ cs) (r, rs) (h, hs) = absurd r
served_below value (swapping v cur ∷ cs) (r, rs) (h, hs) = absurd r

starting : (value : ℕ) (ts : List ℕ) → All (IsServed value) (map loading ts)
starting value [] = tt
starting value (t ∷ ts) = (tt, starting value ts)

target-loading : (ts : List ℕ) → map target (map loading ts) ≡ ts
target-loading [] = refl
target-loading (t ∷ ts) = ap (λ (us : List ℕ). t ∷ us) (target-loading ts)

-- However the calls of `advance` overlap, once all of them have returned the value is the highest
-- of the number before and the numbers of the calls.
pub advance_all-highest :
    (start : ℕ) (ts schedule : List ℕ)
    → All IsReturned (advance_all schedule start (map loading ts)).1
    → (advance_all schedule start (map loading ts)).0 ≡ highest start ts
advance_all-highest start ts schedule r =
    let (le, same, served, bounded) =
      run-AllAdvanced schedule start (map loading ts) (starting start ts) in
    let value = (advance_all schedule start (map loading ts)).0 in
    let calls = (advance_all schedule start (map loading ts)).1 in
    let (lo, below) = below_highest start ts in
    let top = bounded (highest start ts) lo (
      subst (λ (us : List ℕ). All (λ t. t ≤ highest start ts) us) (sym (target-loading ts))
        below) in
    let down = highest_below start value ts le (
      subst (λ (us : List ℕ). All (λ t. t ≤ value) us) (same ∙ target-loading ts)
        (served_below value calls r served)) in
    omega arith
