-- ===== src/Fees/Batch.antt =====
-- The fee of several tokens in one transaction.
use hinkal_go.Prelude.{
  ◌≡◌, ◌∙◌, Option, List, [], ◌∷◌, Text, ◌||◌, ℕ, zero, suc, length, Option-cases, Bool-cases, inl,
  inr,
}
use hinkal_go.Prelude.Int.{ℤ, pos, ◌+ℤ◌, beq_ℤ, int_laws}
use hinkal_go.Prelude.Ascii.{equal_fold}
use hinkal_go.Fees.{
  FeeStructure, or_zero, calculate_modified_fee_structure, variable_fees, add_flat_fees,
  calculate_modified_fee_structure_for_tokens,
}

module _ {Token : Type 0} (address : Token → Text) (get_token : Text → Option Token)
    (cross_token_variable_fee : Token → ℤ → ℤ → Token → Option ℤ) where
  abbrev modified : Token → ℤ → FeeStructure → FeeStructure
  modified = calculate_modified_fee_structure address get_token cross_token_variable_fee

  -- What each token costs on its own.
  abbrev singles : List Token → List (Option ℤ) → FeeStructure → List FeeStructure
  singles = variable_fees address get_token cross_token_variable_fee

  abbrev for_tokens : List Token → List (Option ℤ) → FeeStructure → FeeStructure
  for_tokens =
      calculate_modified_fee_structure_for_tokens address get_token cross_token_variable_fee

  -- A token's fee without the flat fee, and with it.
  modified_split :
      (t : Token) (amount : ℤ) (fees : FeeStructure)
      → (modified t amount (record fees { flat_fee = pos 0 })).flat_fee +ℤ fees.flat_fee
        ≡ (modified t amount fees).flat_fee
  unfolding calculate_modified_fee_structure
  modified_split t amount fees = elim (Option-cases (get_token fees.fee_token)) [
    | inl unknown ↦ rw unknown (omega int_laws)
    | inr (fee_token, known) ↦
        rw known
          (elim (Bool-cases
            (equal_fold fees.fee_token (address t) || beq_ℤ fees.variable_rate (pos 0))) [
              | inl same ↦ rw same (omega int_laws)
              | inr cross ↦ rw cross (omega int_laws)
            ])
  ]

  -- The sum of the flat fees of a list, behind one that it starts with.
  sum_flat_fees : List FeeStructure → ℤ
  sum_flat_fees [] = pos 0
  sum_flat_fees (f ∷ fs) = f.flat_fee +ℤ sum_flat_fees fs

  add_flat_fees-sum :
      (flat : ℤ) (fs : List FeeStructure)
      → add_flat_fees address get_token cross_token_variable_fee flat fs ≡ flat +ℤ sum_flat_fees fs
  unfolding add_flat_fees sum_flat_fees
  add_flat_fees-sum flat [] = omega int_laws
  add_flat_fees-sum flat (f ∷ fs) = add_flat_fees-sum (flat +ℤ f.flat_fee) fs ∙ omega int_laws

  -- `n` times a fee.
  abbrev pub times : ℕ → ℤ → ℤ
  times zero x = pos 0
  times (suc n) x = x +ℤ times n x

  variable_fees_split :
      (ts : List Token) (amounts : List (Option ℤ)) (fees : FeeStructure)
      → sum_flat_fees (singles ts amounts (record fees { flat_fee = pos 0 }))
          +ℤ times (length ts) fees.flat_fee
        ≡ sum_flat_fees (singles ts amounts fees)
  unfolding variable_fees sum_flat_fees
  variable_fees_split [] amounts fees = omega int_laws
  variable_fees_split (t ∷ ts) [] fees =
      rw (← modified_split t (pos 0) fees, ← variable_fees_split ts [] fees) (omega int_laws)
  variable_fees_split (t ∷ ts) (amount ∷ amounts) fees =
      rw (← modified_split t (or_zero amount) fees, ← variable_fees_split ts amounts fees)
        (omega int_laws)

  -- The flat fee is charged once: the fee of a batch of tokens is the flat fee and the tokens' own
  -- fees, less the flat fee for every token.
  pub for_tokens_flat_once :
      (ts : List Token) (amounts : List (Option ℤ)) (fees : FeeStructure)
      → (for_tokens ts amounts fees).flat_fee +ℤ times (length ts) fees.flat_fee
        ≡ add_flat_fees address get_token cross_token_variable_fee fees.flat_fee
            (singles ts amounts fees)
  unfolding calculate_modified_fee_structure_for_tokens
  for_tokens_flat_once ts amounts fees =
      rw
        (
          add_flat_fees-sum fees.flat_fee (singles ts amounts (record fees { flat_fee = pos 0 })),
          add_flat_fees-sum fees.flat_fee (singles ts amounts fees),
        )
        (rw (← variable_fees_split ts amounts fees) (omega int_laws))
