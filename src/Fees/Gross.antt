-- ===== src/Fees/Gross.antt =====
-- Grossing an amount up and taking the fee off again.
use hinkal_go.Prelude.{
  ℕ, zero, suc, ◌+◌, ◌-◌, ◌*◌, ◌/◌, ◌≤◌, ◌<◌, ◌≡◌, ap, arith, some, sum, Text, leb, leb→le, leb→lt,
  Bool-cases, inl, inr, if◌then◌else◌,
}
use native.Mathlib.Nat.{div-mul-le_self, lt-div-mul-add}
use hinkal_go.Prelude.Int.{ℤ, pos, ◌-ℤ◌, ◌≤ℤ◌, -ℤ-pos, quo-pos, pos_laws}
use hinkal_go.Fees.{
  FeeStructure, calculate_total_fee, calculate_gross_amount_with_fee, divide_rounding_up,
  calculate_variable_fee_gross_up,
}

-- `(n * 10000 + (d - 1)) / d` is the quotient rounded up.
ceil_bounds : (x d : ℕ) → 1 ≤ d → (x ≤ (x + (d - 1)) / d * d) × ((x + (d - 1)) / d * d < x + d)
ceil_bounds x d h =
    omega (arith, div-mul-le_self (x + (d - 1)) d, lt-div-mul-add {a = x + (d - 1)} {b = d} h)

-- Of a gross amount `g` that is `x * 10000 / d` rounded up, with `d = 10000 - r`, the cut of `r`
-- in 10000 leaves `x` or `x + 1`.
cut_leaves :
    (x d r g : ℕ)
    → 1 ≤ r
    → d + r ≡ 10000
    → x * 10000 ≤ g * d
    → g * d < x * 10000 + d
    → (x + g * r / 10000 ≤ g) × (g ≤ x + g * r / 10000 + 1)
cut_leaves x d r g rate sum lo hi =
    let split : g * d + g * r ≡ g * 10000 = omega (arith, ap (λ (t : ℕ). g * t) sum) in omega arith

-- A fee structure whose flat fee is `f` and whose rate is `r`.
abbrev pub charging : Text → ℕ → ℕ → FeeStructure
charging token f r = record { fee_token = token; flat_fee = pos f; variable_rate = pos r }

pub total_fee_lem :
    (token : Text) (g f r : ℕ)
    → calculate_total_fee (pos g) (charging token f r) ≡ pos (f + g * r / 10000)
unfolding calculate_total_fee
total_fee_lem token g f r = simp (pos_laws, quo-pos (g * r) 10000 (omega arith))

gross_lem :
    (token : Text) (n f r : ℕ)
    → 1 ≤ r
    → r < 10000
    → calculate_gross_amount_with_fee (pos n) (charging token f r)
      ≡ some (pos (((n + f) * 10000 + (10000 - r - 1)) / (10000 - r)))
unfolding calculate_gross_amount_with_fee
gross_lem token n f r lo hi =
    simp (pos_laws, -ℤ-pos 10000 r (omega arith), -ℤ-pos (10000 - r) 1 (omega arith))
      (ground (arith, quo-pos ((n + f) * 10000 + (10000 - r - 1)) (10000 - r) (omega arith)))

gross_no_rate :
    (token : Text) (n f : ℕ)
    → calculate_gross_amount_with_fee (pos n) (charging token f 0) ≡ some (pos (n + f))
unfolding calculate_gross_amount_with_fee
gross_no_rate token n f = simp pos_laws

-- What the fee leaves of a gross amount.
abbrev pub left_after_fee : ℤ → FeeStructure → ℤ
left_after_fee gross fees = gross -ℤ calculate_total_fee gross fees

pub left_after_fee_lem :
    (token : Text) (g f r : ℕ)
    → f + g * r / 10000 ≤ g
    → left_after_fee (pos g) (charging token f r) ≡ pos (g - (f + g * r / 10000))
left_after_fee_lem token g f r h = rw (total_fee_lem token g f r) (-ℤ-pos g (f + g * r / 10000) h)

-- For a net amount and a flat fee that are not negative and a rate from 0 to below 100%, the gross
-- amount is computed, and what its total fee leaves of it is the net amount or one unit more.
pub calculate_gross_amount_with_fee_covers :
    (token : Text) (n f r : ℕ)
    → r < 10000
    → (gross : ℤ) × (calculate_gross_amount_with_fee (pos n) (charging token f r) ≡ some gross)
      × (pos n ≤ℤ left_after_fee gross (charging token f r))
      × (left_after_fee gross (charging token f r) ≤ℤ pos (n + 1))
calculate_gross_amount_with_fee_covers token n f zero hi = (
  pos (n + f),
  gross_no_rate token n f,
  rw (left_after_fee_lem token (n + f) f 0 (omega arith)) (omega arith),
  rw (left_after_fee_lem token (n + f) f 0 (omega arith)) (omega arith),
)
calculate_gross_amount_with_fee_covers token n f (suc r) below =
    let d : ℕ = 10000 - suc r in
    let g : ℕ = ((n + f) * 10000 + (d - 1)) / d in
    let (lo', hi') = ceil_bounds ((n + f) * 10000) d (omega arith) in
    let (least, most) = cut_leaves (n + f) d (suc r) g (omega arith) (omega arith) lo' hi' in
    let left = left_after_fee_lem token g f (suc r) (omega arith) in
    (
      pos g,
      gross_lem token n f (suc r) (omega arith) below,
      rw left (omega arith),
      rw left (omega arith),
    )

unfoldable pub rounded_up : ℕ → ℕ → ℕ
rounded_up x d = if leb x (x / d * d) then x / d else x / d + 1

divide_rounding_up_lem :
    (x d : ℕ) → 1 ≤ d → divide_rounding_up (pos x) (pos d) ≡ some (pos (rounded_up x d))
unfolding divide_rounding_up rounded_up
divide_rounding_up_lem x d h =
    rw (quo-pos x d h, divide_rounding_up)
      (simp (pos_laws, -ℤ-pos x (x / d * d) (div-mul-le_self x d))
        (ground (arith, div-mul-le_self x d)))

pub rounded_up_bounds : (x d : ℕ) → 1 ≤ d → (x ≤ rounded_up x d * d) × (rounded_up x d * d < x + d)
unfolding rounded_up
rounded_up_bounds x d h =
    let close = lt-div-mul-add {a = x} {b = d} h in
    elim (Bool-cases (leb x (x / d * d))) [
      | inl exact ↦ rw exact (leb→le _ _ exact, omega (arith, div-mul-le_self x d))
      | inr rest ↦ rw rest (omega (arith, close), omega (arith, leb→lt _ _ rest))
    ]

-- The extra amount that covers the cut of `r` in 10000.
unfoldable pub grossed : ℕ → ℕ → ℕ
grossed zero r = 0
grossed (suc a) zero = 0
grossed (suc a) (suc r) = rounded_up (suc a * suc r) (10000 - suc r)

pub gross_up_lem :
    (a r : ℕ)
    → r < 10000
    → calculate_variable_fee_gross_up (pos a) (pos r) ≡ some (pos (grossed a r))
unfolding calculate_variable_fee_gross_up grossed
gross_up_lem zero r below = ground arith
gross_up_lem (suc a) zero below = ground arith
gross_up_lem (suc a) (suc r) below =
    simp (pos_laws, -ℤ-pos 10000 (suc r) (omega arith))
      (ground (arith, divide_rounding_up_lem (suc a * suc r) (10000 - suc r) (omega arith)))

pub grossed_bounds :
    (a r : ℕ)
    → r < 10000
    → (a + (a + grossed a r) * r / 10000 ≤ a + grossed a r)
      × (a + grossed a r ≤ a + (a + grossed a r) * r / 10000 + 1)
unfolding grossed
grossed_bounds zero r below = omega arith
grossed_bounds (suc a) zero below = omega arith
grossed_bounds (suc n) (suc r) below =
    let a : ℕ = suc n in
    let d : ℕ = 10000 - suc r in
    let u : ℕ = rounded_up (a * suc r) d in
    let (lo, hi) = rounded_up_bounds (a * suc r) d (omega arith) in
    let sum : d + suc r ≡ 10000 = omega arith in
    let split : a * d + a * suc r ≡ a * 10000 = omega (arith, ap (λ (t : ℕ). a * t) sum) in
    cut_leaves a d (suc r) (a + u) (omega arith) sum (omega arith) (omega arith)
