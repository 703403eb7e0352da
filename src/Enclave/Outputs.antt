-- ===== src/Enclave/Outputs.antt =====
-- The notes that a transaction creates: `verifyExpectedOutputCommitment` and
-- `verifyComputeOutCommitments` of internal/functions/enclave/construct_tx_enclave_verify.go.
use hinkal_go.Prelude.{
  ℕ, zero, suc, ◌+◌, not, ◌||◌, Option, none, some, List, [], ◌∷◌, ◌++◌, length, Text, nat_eq, ltb,
  ◌==◌, if◌then◌else◌, Result, ok, err, ◌>>=◌, fail_if, ◌>>◌,
}
use hinkal_go.Prelude.Int.{ℤ}
use hinkal_go.PreTransaction.{UtxoParams, split_commas}
use hinkal_go.Enclave.{
  EnclaveError, out_of_range, arrays_mismatch, recipients_mismatch, row_too_short,
  malformed_recipient, Library, big_int, at, strings_to_big_ints, is_zero, zero_text,
}
use hinkal_go.Enclave.Inputs.{are_lengths_different}
use hinkal_go.Enclave.Notes.{build_note, get_commitment, own_params, others_params}

-- `selfSlotCount`: without requested outputs there is one slot, of the change.
unfoldable pub self_slot_count : Option (List Text) → ℕ
self_slot_count none = 1
self_slot_count (some amounts) = length amounts

module _ (lib : Library) where
  -- `verifyExpectedOutputCommitment`, whose parameters hold the amount.
  unfoldable pub expected_output_commitment : ℤ → UtxoParams → Result EnclaveError Text
  expected_output_commitment amount params =
      if is_zero amount
      then ok zero_text
      else build_note lib params >>= λ note. get_commitment lib note

  -- An own output.
  unfoldable pub self_slot :
      Text → List ℤ → Text → Text → Text → Text → Text → Result EnclaveError Text
  unfolding expected_output_commitment
  self_slot nullifying_key spending_public_key time_stamp token a x y = big_int a >>= λ amount.
      big_int x >>= λ h0x. big_int y >>= λ h0y.
      expected_output_commitment amount
        (own_params token amount nullifying_key spending_public_key h0x h0y time_stamp)

  -- The first slots of a token's row.
  unfoldable pub self_row :
      Text
      → List ℤ
      → Text
      → Text
      → ℕ
      → List Text
      → List Text
      → List Text
      → Result EnclaveError (List Text)
  unfolding self_slot
  self_row nullifying_key spending_public_key time_stamp token zero amounts xs ys = ok []
  self_row nullifying_key spending_public_key time_stamp token (suc slots) (a ∷ amounts) (x ∷ xs)
        (y ∷ ys) =
      self_slot nullifying_key spending_public_key time_stamp token a x y >>= λ commitment.
      self_row nullifying_key spending_public_key time_stamp token slots amounts xs ys >>= λ rest.
      ok (commitment ∷ rest)
  self_row nullifying_key spending_public_key time_stamp token (suc slots) [] xs ys =
      err out_of_range
  self_row nullifying_key spending_public_key time_stamp token (suc slots) (_ ∷ _) [] ys =
      err out_of_range
  self_row nullifying_key spending_public_key time_stamp token (suc slots) (_ ∷ _) (_ ∷ _) [] =
      err out_of_range

  -- A recipient's output, of the caller's address and amount.
  unfoldable pub recipient_slot : Text → Text → ℕ → Text → List Text → Result EnclaveError Text
  unfolding split_commas expected_output_commitment
  recipient_slot time_stamp token token_index recipient amounts = elim (split_commas recipient) [
    | stealth ∷ x ∷ y ∷ _ ↦ big_int x >>= λ h0x. big_int y >>= λ h0y.
        at amounts token_index >>= λ a. big_int a >>= λ amount.
        expected_output_commitment amount (others_params token amount stealth h0x h0y time_stamp)
    | _ ↦ err malformed_recipient
  ]

  -- The recipients' slots of a token's row.
  unfoldable pub recipient_row :
      Text → Text → ℕ → List Text → List (List Text) → Result EnclaveError (List Text)
  unfolding recipient_slot
  recipient_row time_stamp token token_index [] amounts = ok []
  recipient_row time_stamp token token_index (_ ∷ _) [] = err out_of_range
  recipient_row time_stamp token token_index (recipient ∷ recipients) (a ∷ amounts) =
      recipient_slot time_stamp token token_index recipient a >>= λ commitment.
      recipient_row time_stamp token token_index recipients amounts >>= λ rest.
      ok (commitment ∷ rest)

  module _ (nullifying_key : Text) (spending_public_key : List ℤ) (time_stamp : Text) (slots : ℕ)
      (recipients : List Text) (recipient_amounts : List (List Text)) where
    -- The row of a token, with the check of its lengths.
    unfoldable pub out_row :
        ℕ → Text → List Text → List Text → List Text → Result EnclaveError (List Text)
    unfolding self_row recipient_row
    out_row token_index token amounts xs ys =
        fail_if (ltb (length amounts) slots || ltb (length xs) slots || ltb (length ys) slots)
          row_too_short
        >> (self_row nullifying_key spending_public_key time_stamp token slots amounts xs ys
            >>= λ own.
                recipient_row time_stamp token token_index recipients recipient_amounts
                >>= λ others. ok (own ++ others))

    -- The rows of the tokens from an index on.
    unfoldable pub out_rows :
        ℕ
        → List Text
        → List (List Text)
        → List (List Text)
        → List (List Text)
        → Result EnclaveError (List (List Text))
    unfolding out_row
    out_rows token_index [] amounts xs ys = ok []
    out_rows token_index (token ∷ tokens) (a ∷ amounts) (x ∷ xs) (y ∷ ys) =
        out_row token_index token a x y >>= λ row.
        out_rows (token_index + 1) tokens amounts xs ys >>= λ rest. ok (row ∷ rest)
    out_rows token_index (_ ∷ _) [] xs ys = err out_of_range
    out_rows token_index (_ ∷ _) (_ ∷ _) [] ys = err out_of_range
    out_rows token_index (_ ∷ _) (_ ∷ _) (_ ∷ _) [] = err out_of_range

-- `verifyComputeOutCommitments`
unfoldable pub compute_out_commitments :
    Library
    → List Text
    → Option (List Text)
    → List (List Text)
    → List (List Text)
    → List (List Text)
    → Text
    → Text
    → Text × Text
    → List Text
    → List (List Text)
    → Result EnclaveError (List (List Text))
unfolding out_rows strings_to_big_ints self_slot_count
compute_out_commitments lib tokens self_outputs amounts xs ys time_stamp nullifying_key
      spending_public_key recipients recipient_amounts =
    fail_if (not (length recipients == length recipient_amounts)) recipients_mismatch
    >> (fail_if (are_lengths_different (length tokens) amounts xs ys) arrays_mismatch
        >> (strings_to_big_ints (spending_public_key.0 ∷ spending_public_key.1 ∷ []) >>= λ own.
            out_rows lib nullifying_key own time_stamp (self_slot_count self_outputs) recipients
              recipient_amounts 0 tokens amounts xs ys))
