-- ===== src/Enclave/Amounts.antt =====
-- The amounts of a transaction: `verifyAssertAmountsConserve`, `verifyComputeAmountChangesSigned` and
-- `verifyStuckWithdrawJobCoversFee` of internal/functions/enclave/construct_tx_enclave_verify.go.
use hinkal_go.Prelude.{
  ℕ, ◌+◌, not, ◌||◌, Option, none, some, List, [], ◌∷◌, length, take, Text, nat_eq, text_eq, ltb,
  ◌==◌, Result, ok, err, ◌>>=◌, fail_if, ◌>>◌,
}
use hinkal_go.Prelude.Int.{ℤ, pos, ◌+ℤ◌, beq_ℤ, leb_ℤ}
use hinkal_go.Enclave.{
  EnclaveError, out_of_range, arrays_mismatch, row_too_short, self_outputs_mismatch,
  amounts_not_conserved, fee_not_covered, big_int, at,
}
use hinkal_go.Enclave.Outputs.{self_slot_count}

-- `total.Add(total, v)` for each amount, from a total on.
unfoldable pub add_amounts : ℤ → List Text → Result EnclaveError ℤ
add_amounts total [] = ok total
add_amounts total (a ∷ amounts) = big_int a >>= λ v. add_amounts (total +ℤ v) amounts

-- The requested outputs are those of the first row.
unfoldable pub assert_self_outputs : List Text → List Text → Result EnclaveError (Unit {0})
assert_self_outputs [] row = ok tt
assert_self_outputs (_ ∷ _) [] = err out_of_range
assert_self_outputs (expected ∷ selfs) (a ∷ row) =
    fail_if (not (a == expected)) self_outputs_mismatch >> assert_self_outputs selfs row

-- No row is shorter than the own slots.
unfoldable pub assert_rows_long_enough : ℕ → List (List Text) → Result EnclaveError (Unit {0})
assert_rows_long_enough slots [] = ok tt
assert_rows_long_enough slots (row ∷ rows) =
    fail_if (ltb (length row) slots) row_too_short >> assert_rows_long_enough slots rows

-- A token: what goes in and the change is what goes to the own slots.
unfoldable pub assert_row_conserves :
    ℕ → List Text → List Text → Text → Result EnclaveError (Unit {0})
unfolding add_amounts
assert_row_conserves slots ins outs change_text = add_amounts (pos 0) ins >>= λ input_total.
    add_amounts (pos 0) (take slots outs) >>= λ self_output_total. big_int change_text >>= λ change.
    fail_if (not (beq_ℤ (input_total +ℤ change) self_output_total)) amounts_not_conserved

unfoldable pub assert_rows_conserve :
    ℕ → List Text → List (List Text) → List (List Text) → List Text → Result EnclaveError (Unit {0})
unfolding assert_row_conserves
assert_rows_conserve slots [] ins outs changes = ok tt
assert_rows_conserve slots (_ ∷ tokens) (i ∷ ins) (o ∷ outs) (c ∷ changes) =
    assert_row_conserves slots i o c >> assert_rows_conserve slots tokens ins outs changes
assert_rows_conserve slots (_ ∷ _) [] outs changes = err out_of_range
assert_rows_conserve slots (_ ∷ _) (_ ∷ _) [] changes = err out_of_range
assert_rows_conserve slots (_ ∷ _) (_ ∷ _) (_ ∷ _) [] = err out_of_range

-- The check of the requested outputs; `nil` is like no outputs here.
unfoldable pub assert_requested_outputs :
    Option (List Text) → List (List Text) → Result EnclaveError (Unit {0})
unfolding assert_self_outputs
assert_requested_outputs none outs = ok tt
assert_requested_outputs (some []) outs = ok tt
assert_requested_outputs (some (_ ∷ _)) [] = err row_too_short
assert_requested_outputs (some (a ∷ selfs)) (row ∷ outs) = assert_self_outputs (a ∷ selfs) row

-- `verifyAssertAmountsConserve`
unfoldable pub assert_amounts_conserve :
    List Text
    → List (List Text)
    → List (List Text)
    → Option (List Text)
    → List Text
    → Result EnclaveError (Unit {0})
unfolding assert_rows_long_enough assert_requested_outputs assert_rows_conserve self_slot_count
assert_amounts_conserve tokens ins outs self_outputs changes =
    fail_if
      (not (length ins == length tokens)
        || not (length outs == length tokens)
        || not (length changes == length tokens))
      arrays_mismatch
    >> (assert_rows_long_enough (self_slot_count self_outputs) outs
        >> (assert_requested_outputs self_outputs outs
            >> assert_rows_conserve (self_slot_count self_outputs) tokens ins outs changes))

-- What the recipients get of a token, from a total on.
unfoldable pub add_recipient_amounts : ℕ → ℤ → List (List Text) → Result EnclaveError ℤ
add_recipient_amounts token_index total [] = ok total
add_recipient_amounts token_index total (amounts ∷ rest) = at amounts token_index >>= λ a.
    big_int a >>= λ v. add_recipient_amounts token_index (total +ℤ v) rest

unfoldable pub signed_changes_from :
    ℕ → List Text → List Text → List (List Text) → Result EnclaveError (List ℤ)
unfolding add_recipient_amounts
signed_changes_from token_index [] changes recipient_amounts = ok []
signed_changes_from token_index (_ ∷ tokens) changes recipient_amounts =
    at changes token_index >>= big_int >>= λ self_delta.
    add_recipient_amounts token_index (pos 0) recipient_amounts >>= λ recipient_total.
    signed_changes_from (token_index + 1) tokens changes recipient_amounts >>= λ rest.
    ok ((self_delta +ℤ recipient_total) ∷ rest)

-- `verifyComputeAmountChangesSigned`
unfoldable pub compute_amount_changes_signed :
    List Text → List Text → List (List Text) → Result EnclaveError (List ℤ)
unfolding signed_changes_from
compute_amount_changes_signed = signed_changes_from 0

-- `verifyStuckWithdrawJobCoversFee`
abbrev pub stuck_withdraw_job_covers_fee : ℤ → ℤ → Result EnclaveError (Unit {0})
stuck_withdraw_job_covers_fee input_total flat_fee =
    fail_if (leb_ℤ input_total flat_fee) fee_not_covered
