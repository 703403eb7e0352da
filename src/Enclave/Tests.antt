-- ===== src/Enclave/Tests.antt =====
-- Runs at fixed inputs, and the properties applied to them, of small functions in the libraries'
-- places.
mod Answers
mod Runs
mod Solana
use hinkal_go.Prelude.{
  ℕ, ◌^◌, ◌≡◌, ◌≢◌, ◌↔◌, refl, true, none, some, List, [], ◌∷◌, map, drop, Text, text_eq, ok, err,
  if◌then◌else◌,
}
use hinkal_go.Prelude.Sets.{is_member, IsDistinct}
use hinkal_go.Prelude.Int.{ℤ, pos, negsuc, ◌+ℤ◌, beq_ℤ}
use hinkal_go.PreTransaction.{
  parse_big_int, parse_trimmed, trim_left, trim_right, strip_hex, set_string, digits_value, digit,
  new_utxo, choose_h0, split_commas,
}
use hinkal_go.Numbers.{int_text, nat_text, digits_text, to_be_hex}
use hinkal_go.Enclave.{
  too_wide, hash_mismatch, big_int, traverse, strings_to_big_ints, poseidon_big, mod_field,
}
use hinkal_go.Enclave.Notes.{build_note, get_stealth_address, get_commitment, get_nullifier}
use hinkal_go.Enclave.Inputs.{spend, in_slot, in_row, in_rows, is_different, compute_in_nullifiers}
use hinkal_go.Enclave.Outputs.{
  self_slot_count, compute_out_commitments, out_rows, out_row, self_row, self_slot, recipient_row,
  recipient_slot, expected_output_commitment,
}
use hinkal_go.Enclave.Amounts.{
  assert_amounts_conserve, compute_amount_changes_signed, signed_changes_from,
  add_recipient_amounts,
}
use hinkal_go.Enclave.Response.{authorised_commitments, verify_prepare_tx_response}
use hinkal_go.Enclave.Spent.{first_slot, first_row}
use hinkal_go.Enclave.Recipients.{recipient_rows, compute_out_commitments-recipients}
use hinkal_go.Enclave.Conserved.{TokenBalance}
use hinkal_go.Enclave.Conserved.Exact.{AreBalanced, assert_amounts_conserve-AreBalanced}
use hinkal_go.Enclave.Accepted.{with_hash, verify_prepare_tx_response-rehashed}
use hinkal_go.Enclave.Accepted.Keeps.{
  verify_prepare_tx_response-authorised, verify_prepare_tx_response-balanced,
}
use hinkal_go.Enclave.Jobs.Distinct.{no_job, one_job, verify_jobs-IsDistinct}
use hinkal_go.Enclave.Jobs.Withdrawal.{IsWithdrawal, verify_jobs-IsWithdrawal}
use hinkal_go.Enclave.Tests.Answers.{
  small_library, token, digit_text, commitment, payload, preimage, response_of, response, job_of,
  jobs, stuck,
}
use hinkal_go.Enclave.Tests.Runs.{response_run, jobs_run, output_rows}

four : big_int (digit_text 4) ≡ ok (pos 4)
unfolding big_int parse_big_int parse_trimmed trim_left trim_right strip_hex set_string digits_value
    digit
four = refl

answer_hash : big_int response.preimage.signed_message_hash ≡ ok (pos 323)
unfolding big_int parse_big_int parse_trimmed trim_left trim_right strip_hex set_string digits_value
    digit
answer_hash = refl

verify_prepare_tx_response-rehashed_example :
    verify_prepare_tx_response small_library 1 payload (with_hash (digit_text 4) response)
    ≡ (if beq_ℤ (pos 323) (pos 4) then ok tt else err hash_mismatch)
verify_prepare_tx_response-rehashed_example =
    verify_prepare_tx_response-rehashed small_library 1 payload response (pos 323) (pos 4)
      (digit_text 4) response_run answer_hash four

keys : strings_to_big_ints (digit_text 1 ∷ digit_text 2 ∷ []) ≡ ok (pos 1 ∷ pos 2 ∷ [])
unfolding strings_to_big_ints traverse big_int parse_big_int parse_trimmed trim_left trim_right
    strip_hex set_string digits_value digit
keys = refl

five : big_int (digit_text 5) ≡ ok (pos 5)
unfolding big_int parse_big_int parse_trimmed trim_left trim_right strip_hex set_string digits_value
    digit
five = refl

spend_run :
    spend small_library
      (digit_text 7)
      (pos 1 ∷ pos 2 ∷ [])
      token
      (pos 5)
      (digit_text 3)
      (digit_text 4)
      (digit_text 2)
    ≡ ok (commitment, 48 ∷ 120 ∷ 48 ∷ 49 ∷ 51 ∷ 97 ∷ [])
unfolding compute_in_nullifiers in_rows in_row in_slot spend is_different strings_to_big_ints
    traverse big_int parse_big_int parse_trimmed trim_left trim_right strip_hex set_string
    digits_value digit build_note new_utxo choose_h0 get_commitment get_nullifier
    get_stealth_address poseidon_big mod_field to_be_hex nat_text digits_text
spend_run = refl

authorised_run : authorised_commitments small_library payload ≡ ok (some (commitment ∷ []))
unfolding authorised_commitments
authorised_run = refl

verify_prepare_tx_response-authorised_example : is_member commitment (commitment ∷ []) ≡ true
verify_prepare_tx_response-authorised_example =
    verify_prepare_tx_response-authorised small_library 1 payload response (commitment ∷ [])
      (pos 1 ∷ pos 2 ∷ []) token (digit_text 5) (digit_text 3) (digit_text 4) (digit_text 2) (pos 5)
      (commitment, 48 ∷ 120 ∷ 48 ∷ 49 ∷ 51 ∷ 97 ∷ []) response_run authorised_run (refl, tt) keys
      (first_row first_slot) five refl spend_run

signed_run :
    compute_amount_changes_signed payload.erc20_addresses payload.amount_changes
      payload.recipient_amounts
    ≡ ok (negsuc 0 ∷ [])
unfolding compute_amount_changes_signed signed_changes_from add_recipient_amounts ◌+ℤ◌ big_int
    parse_big_int parse_trimmed trim_left trim_right strip_hex set_string digits_value digit
signed_run = refl

verify_prepare_tx_response-balanced_example :
    TokenBalance
      (self_slot_count none)
      0
      (digit_text 5 ∷ digit_text 0 ∷ [])
      (digit_text 2 ∷ [])
      ((digit_text 2 ∷ []) ∷ [])
      (some (negsuc 0))
verify_prepare_tx_response-balanced_example =
    verify_prepare_tx_response-balanced small_library 1 0 payload response (negsuc 0 ∷ []) token
      (digit_text 5 ∷ digit_text 0 ∷ []) (digit_text 2 ∷ []) (45 ∷ 51 ∷ []) response_run signed_run
      refl refl refl refl

assert_amounts_conserve-AreBalanced_example :
    (assert_amounts_conserve payload.erc20_addresses preimage.in_amounts preimage.out_amounts
        payload.self_output_amounts payload.amount_changes
      ≡ ok tt)
    ↔ AreBalanced payload.erc20_addresses preimage.in_amounts preimage.out_amounts
        payload.self_output_amounts payload.amount_changes
assert_amounts_conserve-AreBalanced_example =
    assert_amounts_conserve-AreBalanced payload.erc20_addresses preimage.in_amounts
      preimage.out_amounts payload.self_output_amounts payload.amount_changes

outputs_run :
    compute_out_commitments small_library payload.erc20_addresses payload.self_output_amounts
      preimage.out_amounts preimage.out_note_h0_ax preimage.out_note_h0_ay preimage.out_time_stamp
      payload.nullifying_key payload.spending_public_key payload.recipient_address
      payload.recipient_amounts
    ≡ ok output_rows
unfolding compute_out_commitments out_rows out_row self_row self_slot recipient_row recipient_slot
    expected_output_commitment self_slot_count split_commas compute_in_nullifiers in_rows in_row
    in_slot spend is_different strings_to_big_ints traverse big_int parse_big_int parse_trimmed
    trim_left trim_right strip_hex set_string digits_value digit build_note new_utxo choose_h0
    get_commitment get_nullifier get_stealth_address poseidon_big mod_field to_be_hex nat_text
    digits_text
outputs_run = refl

compute_out_commitments-recipients_example :
    recipient_rows small_library preimage.out_time_stamp payload.recipient_address
      payload.recipient_amounts 0 payload.erc20_addresses
    ≡ ok (map (drop (self_slot_count none)) output_rows)
compute_out_commitments-recipients_example =
    compute_out_commitments-recipients small_library payload.erc20_addresses none
      preimage.out_amounts preimage.out_note_h0_ax preimage.out_note_h0_ay preimage.out_time_stamp
      payload.nullifying_key payload.spending_public_key payload.recipient_address
      payload.recipient_amounts output_rows outputs_run

first_nullifiers :
    compute_in_nullifiers small_library
      (token ∷ [])
      (job_of 5 []).in_amounts
      preimage.in_h0_ax
      preimage.in_h0_ay
      preimage.in_time_stamps
      (digit_text 7)
      (digit_text 1, digit_text 2)
      none
    ≡ ok (((48 ∷ 120 ∷ 48 ∷ 49 ∷ 51 ∷ 97 ∷ []) ∷ digit_text 0 ∷ []) ∷ [])
unfolding compute_in_nullifiers in_rows in_row in_slot spend is_different strings_to_big_ints
    traverse big_int parse_big_int parse_trimmed trim_left trim_right strip_hex set_string
    digits_value digit build_note new_utxo choose_h0 get_commitment get_nullifier
    get_stealth_address poseidon_big mod_field to_be_hex nat_text digits_text
first_nullifiers = refl

second_nullifiers :
    compute_in_nullifiers small_library
      (token ∷ [])
      (job_of 6 []).in_amounts
      preimage.in_h0_ax
      preimage.in_h0_ay
      preimage.in_time_stamps
      (digit_text 7)
      (digit_text 1, digit_text 2)
      none
    ≡ ok (((48 ∷ 120 ∷ 55 ∷ 57 ∷ []) ∷ digit_text 0 ∷ []) ∷ [])
unfolding compute_in_nullifiers in_rows in_row in_slot spend is_different strings_to_big_ints
    traverse big_int parse_big_int parse_trimmed trim_left trim_right strip_hex set_string
    digits_value digit build_note new_utxo choose_h0 get_commitment get_nullifier
    get_stealth_address poseidon_big mod_field to_be_hex nat_text digits_text
second_nullifiers = refl

verify_jobs-IsDistinct_example :
    IsDistinct {A = Text} ((48 ∷ 120 ∷ 48 ∷ 49 ∷ 51 ∷ 97 ∷ []) ∷ (48 ∷ 120 ∷ 55 ∷ 57 ∷ []) ∷ [])
verify_jobs-IsDistinct_example =
    verify_jobs-IsDistinct small_library stuck jobs
      ((48 ∷ 120 ∷ 55 ∷ 57 ∷ []) ∷ (48 ∷ 120 ∷ 48 ∷ 49 ∷ 51 ∷ 97 ∷ []) ∷ [])
      ((48 ∷ 120 ∷ 48 ∷ 49 ∷ 51 ∷ 97 ∷ []) ∷ (48 ∷ 120 ∷ 55 ∷ 57 ∷ []) ∷ []) jobs_run
      (one_job first_nullifiers refl (one_job second_nullifiers refl no_job))

verify_jobs-IsWithdrawal_example : IsWithdrawal small_library stuck (job_of 6 (54 ∷ 52 ∷ 51 ∷ []))
verify_jobs-IsWithdrawal_example =
    verify_jobs-IsWithdrawal small_library stuck 1 jobs []
      ((48 ∷ 120 ∷ 55 ∷ 57 ∷ []) ∷ (48 ∷ 120 ∷ 48 ∷ 49 ∷ 51 ∷ 97 ∷ []) ∷ [])
      (job_of 6 (54 ∷ 52 ∷ 51 ∷ [])) jobs_run refl

-- Authorised commitments that are not distinct let a note pass that was not authorised.
repeated_commitment_run :
    compute_in_nullifiers small_library
      (token ∷ [])
      ((digit_text 5 ∷ digit_text 6 ∷ []) ∷ [])
      ((digit_text 3 ∷ digit_text 3 ∷ []) ∷ [])
      ((digit_text 4 ∷ digit_text 4 ∷ []) ∷ [])
      ((digit_text 2 ∷ digit_text 2 ∷ []) ∷ [])
      (digit_text 7)
      (digit_text 1, digit_text 2)
      (some (commitment ∷ commitment ∷ []))
    ≡ ok (((48 ∷ 120 ∷ 48 ∷ 49 ∷ 51 ∷ 97 ∷ []) ∷ (48 ∷ 120 ∷ 55 ∷ 57 ∷ []) ∷ []) ∷ [])
unfolding compute_in_nullifiers in_rows in_row in_slot spend is_different strings_to_big_ints
    traverse big_int parse_big_int parse_trimmed trim_left trim_right strip_hex set_string
    digits_value digit build_note new_utxo choose_h0 get_commitment get_nullifier
    get_stealth_address poseidon_big mod_field to_be_hex nat_text digits_text
repeated_commitment_run = refl
