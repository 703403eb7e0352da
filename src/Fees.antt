-- ===== src/Fees.antt =====
-- The fee arithmetic of internal/functions/fees/fees.go and
-- internal/functions/transactions/fee_structure.go.
-- A division that Go would panic on, by zero, gives `none`.
pub mod Gross
pub mod Withdrawal
pub mod Deposits
pub mod Batch
mod Tests
use hinkal_go.Prelude.{
  ℕ, zero, suc, Bool, true, false, ◌||◌, ◌&&◌, Option, none, some, List, [], ◌∷◌, ◌++◌, map, ◌==◌,
  text_eq, if◌then◌else◌, Text,
}
use hinkal_go.Prelude.Int.{ℤ, pos, negsuc, ◌+ℤ◌, ◌-ℤ◌, ◌*ℤ◌, quo, neg_ℤ, beq_ℤ, leb_ℤ, ltb_ℤ}
use hinkal_go.Prelude.Ascii.{equal_fold}

-- `types.FeeStructure` as a caller gives it; a nil pointer is `none`.
pub record FeeStructureParams : Type 0 where
  pub fee_token : Text
  pub flat_fee : Option ℤ
  pub variable_rate : Option ℤ

-- `types.FeeStructure`
pub record FeeStructure : Type 0 where
  pub fee_token : Text
  pub flat_fee : ℤ
  pub variable_rate : ℤ

abbrev pub bps_denominator : ℤ
bps_denominator = pos 10000

abbrev pub or_zero : Option ℤ → ℤ
or_zero none = pos 0
or_zero (some x) = x

-- `normalizeFeeStructure`
unfoldable pub normalize_fee_structure : Text → FeeStructureParams → FeeStructure
normalize_fee_structure default_fee_token p = record {
  fee_token = if p.fee_token == [] then default_fee_token else p.fee_token;
  flat_fee = or_zero p.flat_fee;
  variable_rate = or_zero p.variable_rate;
}

-- The quotient by the denominator, which is not zero.
abbrev per_bps : ℤ → ℤ
per_bps a = or_zero (quo a bps_denominator)

-- `AssertSolanaFeeTokenMatchesMint`: true when there is no error.
unfoldable pub assert_solana_fee_token_matches_mint : FeeStructure → Text → Bool
assert_solana_fee_token_matches_mint fees mint_address = fees.fee_token == mint_address

unfoldable pub calculate_total_fee : ℤ → FeeStructure → ℤ
calculate_total_fee amount fees = fees.flat_fee +ℤ per_bps (amount *ℤ fees.variable_rate)

unfoldable pub calculate_withdrawal_amount : ℤ → FeeStructure → Option ℤ
calculate_withdrawal_amount amount_with_fee fees =
    let positive_amount_with_fee = neg_ℤ amount_with_fee in
    if beq_ℤ fees.variable_rate (pos 0)
    then some (positive_amount_with_fee -ℤ fees.flat_fee)
    else quo ((positive_amount_with_fee -ℤ fees.flat_fee) *ℤ bps_denominator)
        (bps_denominator +ℤ fees.variable_rate)

unfoldable pub calculate_gross_amount_with_fee : ℤ → FeeStructure → Option ℤ
calculate_gross_amount_with_fee net_amount fees =
    let numerator = (net_amount +ℤ fees.flat_fee) *ℤ bps_denominator in
    let denominator = bps_denominator -ℤ fees.variable_rate in
    if beq_ℤ fees.variable_rate (pos 0)
    then some (net_amount +ℤ fees.flat_fee)
    else quo (numerator +ℤ (denominator -ℤ pos 1)) denominator

unfoldable pub divide_rounding_up : ℤ → ℤ → Option ℤ
divide_rounding_up dividend divisor = elim (quo dividend divisor) [
  | none ↦ none
  | some quotient ↦
      let remainder = dividend -ℤ quotient *ℤ divisor in
      some (if beq_ℤ remainder (pos 0) then quotient else quotient +ℤ pos 1)
]

unfoldable pub calculate_variable_fee_gross_up : ℤ → ℤ → Option ℤ
unfolding divide_rounding_up
calculate_variable_fee_gross_up net_amount variable_rate =
    if leb_ℤ net_amount (pos 0) || leb_ℤ variable_rate (pos 0)
    then some (pos 0)
    else divide_rounding_up (net_amount *ℤ variable_rate) (bps_denominator -ℤ variable_rate)

-- The loop of `CalculateGrossUtxoAmounts`, with the total so far.
unfoldable pub gross_utxo_amounts_from : List ℤ → FeeStructure → ℤ → Option (List ℤ × ℤ)
gross_utxo_amounts_from [] fees total = some ([], total)
gross_utxo_amounts_from (amount ∷ amounts) fees total =
    elim (calculate_variable_fee_gross_up amount fees.variable_rate) [
      | none ↦ none
      | some gross_up ↦
          let utxo_amount = amount +ℤ gross_up +ℤ fees.flat_fee in
          elim (gross_utxo_amounts_from amounts fees (total +ℤ utxo_amount)) [
            | none ↦ none
            | some (rest, sum) ↦ some (utxo_amount ∷ rest, sum)
          ]
    ]

unfoldable pub calculate_gross_utxo_amounts : List ℤ → FeeStructure → Option (List ℤ × ℤ)
unfolding gross_utxo_amounts_from
calculate_gross_utxo_amounts amounts fees = gross_utxo_amounts_from amounts fees (pos 0)

-- What the pricing services answer: the token of an address, where they know it, and the variable
-- fee of an amount of another token at a rate, in units of the fee token (`crossTokenVariableFee`,
-- which computes with floats and reads no other field of the fee structure); `none` is an error.
module _ {Token : Type 0} (address : Token → Text) (get_token : Text → Option Token)
    (cross_token_variable_fee : Token → ℤ → ℤ → Token → Option ℤ) where
  unfoldable pub calculate_modified_fee_structure : Token → ℤ → FeeStructure → FeeStructure
  unfolding calculate_total_fee
  calculate_modified_fee_structure amount_token amount fees =
      let same_token : Token → ℤ = λ fee_token.
        if equal_fold fees.fee_token (address amount_token) || beq_ℤ fees.variable_rate (pos 0)
        then calculate_total_fee amount fees
        else fees.flat_fee
          +ℤ or_zero (cross_token_variable_fee amount_token amount fees.variable_rate fee_token) in
      record {
        fee_token = fees.fee_token;
        flat_fee = elim (get_token fees.fee_token) [
          | none ↦ calculate_total_fee amount fees
          | some fee_token ↦ same_token fee_token
        ];
        variable_rate = pos 0;
      }

  -- `amounts[index]` where it is there and not nil, or zero. The calls for the tokens run side by
  -- side and write to different places.
  unfoldable pub variable_fees : List Token → List (Option ℤ) → FeeStructure → List FeeStructure
  variable_fees [] amounts fees = []
  variable_fees (token ∷ tokens) [] fees =
      calculate_modified_fee_structure token (pos 0) fees ∷ variable_fees tokens [] fees
  variable_fees (token ∷ tokens) (amount ∷ amounts) fees =
      calculate_modified_fee_structure token (or_zero amount) fees
      ∷ variable_fees tokens amounts fees

  unfoldable pub add_flat_fees : ℤ → List FeeStructure → ℤ
  add_flat_fees flat [] = flat
  add_flat_fees flat (f ∷ fs) = add_flat_fees (flat +ℤ f.flat_fee) fs

  unfoldable pub calculate_modified_fee_structure_for_tokens :
      List Token → List (Option ℤ) → FeeStructure → FeeStructure
  unfolding variable_fees add_flat_fees
  calculate_modified_fee_structure_for_tokens tokens amounts fees = record {
    fee_token = fees.fee_token;
    flat_fee =
        add_flat_fees fees.flat_fee
          (variable_fees tokens amounts (record fees { flat_fee = pos 0 }));
    variable_rate = pos 0;
  }

-- What `MergeWithFeeStructure` of internal/functions/pre-transaction/merge_with_fee_structure.go
-- does to the addresses and the changes, one for each address; `none` is its error, that the fee is
-- over the value, and a missing change.
unfoldable pub merge_at : List Text → List ℤ → FeeStructure → Option (List Text × List ℤ)
unfolding equal_fold
merge_at [] changes fees = some (fees.fee_token ∷ [], changes ++ (neg_ℤ fees.flat_fee ∷ []))
merge_at (address ∷ addresses) [] fees = none
merge_at (address ∷ addresses) (change ∷ changes) fees =
    let rest = merge_at addresses changes fees in
    let later : Option (List Text × List ℤ) = elim rest [
      | none ↦ none
      | some (merged, sums) ↦ some (address ∷ merged, change ∷ sums)
    ] in
    if equal_fold address fees.fee_token
    then (if ltb_ℤ (pos 0) change && ltb_ℤ change fees.flat_fee
        then none
        else some (address ∷ addresses, (change -ℤ fees.flat_fee) ∷ changes))
    else later
