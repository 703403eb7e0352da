-- ===== src/Fees/Tests.antt =====
-- Runs of the fee arithmetic, and the theorems at them.
use hinkal_go.Prelude.{ℕ, ◌+◌, ◌≡◌, refl, arith, Option, none, some, [], ◌∷◌, Text}
use hinkal_go.Prelude.Int.{ℤ, pos, ◌+ℤ◌, ◌-ℤ◌, ◌*ℤ◌, ◌≤ℤ◌, neg_ℤ, quo}
use hinkal_go.Fees.{
  calculate_total_fee, calculate_gross_amount_with_fee, calculate_withdrawal_amount,
  calculate_variable_fee_gross_up, add_flat_fees, variable_fees,
  calculate_modified_fee_structure_for_tokens, normalize_fee_structure,
}
use hinkal_go.Fees.Gross.{charging, left_after_fee, calculate_gross_amount_with_fee_covers}
use hinkal_go.Fees.Withdrawal.{calculate_withdrawal_amount_fits}
use hinkal_go.Fees.Batch.{times, for_tokens_flat_once}

abbrev token : Text
token = 48 ∷ 120 ∷ []

gross_of_100 : calculate_gross_amount_with_fee (pos 100) (charging token 7 50) ≡ some (pos 108)
unfolding calculate_gross_amount_with_fee quo ◌+ℤ◌ ◌-ℤ◌ ◌*ℤ◌
gross_of_100 = refl

-- A rate of 100% has no gross amount: the division panics.
whole_rate : calculate_variable_fee_gross_up (pos 100) (pos 10000) ≡ none
unfolding calculate_variable_fee_gross_up quo ◌-ℤ◌ ◌*ℤ◌
whole_rate = refl

nil_fees :
    normalize_fee_structure token
      (record { fee_token = []; flat_fee = none; variable_rate = some (pos 3) })
    ≡ charging token 0 3
unfolding normalize_fee_structure
nil_fees = refl

calculate_gross_amount_with_fee_covers_example :
    (gross : ℤ) × (calculate_gross_amount_with_fee (pos 100) (charging token 7 50) ≡ some gross)
    × (pos 100 ≤ℤ left_after_fee gross (charging token 7 50))
    × (left_after_fee gross (charging token 7 50) ≤ℤ pos 101)
calculate_gross_amount_with_fee_covers_example =
    calculate_gross_amount_with_fee_covers token 100 7 50 (omega arith)

calculate_withdrawal_amount_fits_example :
    (w : ℕ) × (calculate_withdrawal_amount (neg_ℤ (pos 108)) (charging token 7 50) ≡ some (pos w))
    × (pos w +ℤ calculate_total_fee (pos w) (charging token 7 50) ≤ℤ pos 108)
    × (pos 108 ≤ℤ pos (w + 1) +ℤ calculate_total_fee (pos (w + 1)) (charging token 7 50))
calculate_withdrawal_amount_fits_example =
    calculate_withdrawal_amount_fits token 108 7 50 (omega arith)

abbrev address_of : Text → Text
address_of t = t

abbrev known : Text → Option Text
known t = some t

abbrev priced : Text → ℤ → ℤ → Text → Option ℤ
priced t amount rate fee_token = some (pos 11)

for_tokens_flat_once_example :
    (calculate_modified_fee_structure_for_tokens address_of known priced
        (token ∷ [] ∷ [])
        (some (pos 10000) ∷ [])
        (charging token 7 50)).flat_fee
      +ℤ times address_of known priced 2 (pos 7)
    ≡ add_flat_fees address_of known priced (pos 7) (
        variable_fees address_of known priced
          (token ∷ [] ∷ [])
          (some (pos 10000) ∷ [])
          (charging token 7 50))
for_tokens_flat_once_example =
    for_tokens_flat_once address_of known priced (token ∷ [] ∷ []) (some (pos 10000) ∷ [])
      (charging token 7 50)
