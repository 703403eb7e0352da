-- ===== src/Enclave/Tests/Runs.antt =====
-- Runs of the checks with the small library.
use hinkal_go.Prelude.{◌≡◌, refl, List, [], ◌∷◌, Text, ok}
use hinkal_go.Enclave.Notes.{build_note, get_stealth_address, get_commitment, get_nullifier}
use hinkal_go.Enclave.Inputs.{spend, in_slot, in_row, in_rows, is_different, compute_in_nullifiers}
use hinkal_go.Enclave.Outputs.{
  self_slot_count, expected_output_commitment, self_slot, self_row, recipient_slot, recipient_row,
  out_row, out_rows, compute_out_commitments,
}
use hinkal_go.Enclave.Amounts.{
  add_amounts, assert_self_outputs, assert_rows_long_enough, assert_row_conserves,
  assert_rows_conserve, assert_requested_outputs, assert_amounts_conserve, add_recipient_amounts,
  signed_changes_from, compute_amount_changes_signed,
}
use hinkal_go.Enclave.CallData.{
  set_bytes, pack_and_hash, call_data_part1, call_data_part2, create_call_data_hash,
  token_addresses_as_ints, signed_message_hash_evm,
}
use hinkal_go.Enclave.Response.{
  resolve_fee_structure, resolve_slippage_values, assert_stealth_pair_owned,
  compute_calldata_hash_and_message, recompute_hash, assert_signed_message_hash_matches,
  authorised_commitments, verify_prepare_tx_response,
}
use hinkal_go.Enclave.Stuck.{
  no_repeated_notes, no_repeated_stuck_notes, assert_job_hash_matches, verify_stuck_withdraw_job,
  verify_jobs,
}
use hinkal_go.Enclave.{
  big_int, traverse, strings_to_big_ints, flat_to_big_ints, expand_bool_per_token, slippage_values,
  calc_public_signal_count, wrap_amount_change, mod_field, poseidon_big, external_action_id_hash,
}
use hinkal_go.Numbers.{digits_text, nat_text, int_text, to_be_hex}
use hinkal_go.PreTransaction.{
  new_utxo, choose_h0, parse_big_int, parse_trimmed, trim_left, trim_right, strip_hex, set_string,
  digits_value, digit, split_commas,
}
use hinkal_go.Chains.{is_tron_like}
use hinkal_go.Prelude.Int.{◌+ℤ◌}
use hinkal_go.Enclave.Tests.Answers.{small_library, payload, response, jobs, stuck}

-- The answer is accepted.
pub response_run : verify_prepare_tx_response small_library 1 payload response ≡ ok tt
unfolding build_note get_stealth_address get_commitment get_nullifier spend in_slot in_row in_rows
    is_different compute_in_nullifiers self_slot_count expected_output_commitment self_slot self_row
    recipient_slot recipient_row out_row out_rows compute_out_commitments add_amounts
    assert_self_outputs assert_rows_long_enough assert_row_conserves assert_rows_conserve
    assert_requested_outputs assert_amounts_conserve add_recipient_amounts signed_changes_from
    compute_amount_changes_signed set_bytes pack_and_hash call_data_part1 call_data_part2
    create_call_data_hash token_addresses_as_ints signed_message_hash_evm resolve_fee_structure
    resolve_slippage_values assert_stealth_pair_owned compute_calldata_hash_and_message
    recompute_hash assert_signed_message_hash_matches authorised_commitments
    verify_prepare_tx_response no_repeated_notes no_repeated_stuck_notes assert_job_hash_matches
    verify_stuck_withdraw_job verify_jobs big_int traverse strings_to_big_ints flat_to_big_ints
    expand_bool_per_token slippage_values calc_public_signal_count wrap_amount_change mod_field
    poseidon_big external_action_id_hash digits_text nat_text int_text to_be_hex new_utxo choose_h0
    parse_big_int parse_trimmed trim_left trim_right strip_hex set_string digits_value digit
    split_commas is_tron_like ◌+ℤ◌
response_run = refl

-- Both jobs are accepted, with their nullifiers.
pub jobs_run :
    verify_jobs small_library stuck jobs []
    ≡ ok ((48 ∷ 120 ∷ 55 ∷ 57 ∷ []) ∷ (48 ∷ 120 ∷ 48 ∷ 49 ∷ 51 ∷ 97 ∷ []) ∷ [])
unfolding build_note get_stealth_address get_commitment get_nullifier spend in_slot in_row in_rows
    is_different compute_in_nullifiers self_slot_count expected_output_commitment self_slot self_row
    recipient_slot recipient_row out_row out_rows compute_out_commitments add_amounts
    assert_self_outputs assert_rows_long_enough assert_row_conserves assert_rows_conserve
    assert_requested_outputs assert_amounts_conserve add_recipient_amounts signed_changes_from
    compute_amount_changes_signed set_bytes pack_and_hash call_data_part1 call_data_part2
    create_call_data_hash token_addresses_as_ints signed_message_hash_evm resolve_fee_structure
    resolve_slippage_values assert_stealth_pair_owned compute_calldata_hash_and_message
    recompute_hash assert_signed_message_hash_matches authorised_commitments
    verify_prepare_tx_response no_repeated_notes no_repeated_stuck_notes assert_job_hash_matches
    verify_stuck_withdraw_job verify_jobs big_int traverse strings_to_big_ints flat_to_big_ints
    expand_bool_per_token slippage_values calc_public_signal_count wrap_amount_change mod_field
    poseidon_big external_action_id_hash digits_text nat_text int_text to_be_hex new_utxo choose_h0
    parse_big_int parse_trimmed trim_left trim_right strip_hex set_string digits_value digit
    split_commas is_tron_like ◌+ℤ◌
jobs_run = refl

abbrev pub output_rows : List (List Text)
output_rows = ((48 ∷ 120 ∷ 48 ∷ 51 ∷ 56 ∷ 52 ∷ []) ∷ (48 ∷ 120 ∷ 52 ∷ 100 ∷ []) ∷ []) ∷ []
