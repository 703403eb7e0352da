-- ===== src/Enclave/Tests/Solana.antt =====
-- The Solana properties at fixed inputs.
use hinkal_go.Prelude.{◌^◌, ◌≡◌, refl, true, [], ◌∷◌, Text, text_eq, ok, err}
use hinkal_go.Prelude.Sets.{is_member}
use hinkal_go.Prelude.Int.{ℤ, pos, negsuc, ◌+ℤ◌}
use hinkal_go.PreTransaction.{
  parse_big_int, parse_trimmed, trim_left, trim_right, strip_hex, set_string, digits_value, digit,
  new_utxo, choose_h0, split_commas,
}
use hinkal_go.Numbers.{to_be_hex, nat_text, digits_text}
use hinkal_go.Enclave.{
  too_wide, big_int, traverse, strings_to_big_ints, poseidon_big, mod_field, flat_to_big_ints,
  expand_bool_per_token, wrap_amount_change,
}
use hinkal_go.Enclave.Notes.{build_note, get_stealth_address, get_commitment, get_nullifier}
use hinkal_go.Enclave.Inputs.{spend, in_slot, in_row, in_rows, is_different, compute_in_nullifiers}
use hinkal_go.Enclave.Outputs.{
  self_slot_count, expected_output_commitment, self_slot, self_row, recipient_slot, recipient_row,
  out_row, out_rows, compute_out_commitments,
}
use hinkal_go.Enclave.Amounts.{
  add_amounts, assert_self_outputs, assert_rows_long_enough, assert_row_conserves,
  assert_rows_conserve, assert_requested_outputs, assert_amounts_conserve,
}
use hinkal_go.Enclave.CallData.{set_bytes}
use hinkal_go.Enclave.Solana.{
  SolanaMessage, solana_preimage, length_prefixed, bytes32_all, fill_bytes, big_endian,
  ◌then_append◌, expected_dimensions, assert_dimensions_match, instruction_bytes,
  instructions_bytes, signed_message_hash_solana, format_mint_address, solana_calldata_hash,
}
use hinkal_go.Enclave.Solana.Check.{
  encrypted_outputs_for_hash, solana_changes_from, compute_solana_amount_changes_signed,
  compute_solana_calldata_hash_and_message, assert_solana_hash_matches,
  verify_prepare_solana_tx_response,
}
use hinkal_go.Enclave.Solana.Encoding.{IsSameMessage, solana_preimage-injective}
use hinkal_go.Enclave.Solana.Accepted.{verify_prepare_solana_tx_response-authorised}
use hinkal_go.Enclave.Spent.{first_slot, first_row}
use hinkal_go.Enclave.Tests.Answers.{
  small_library, digit_text, solana_commitment, solana_payload, solana_dimensions, solana_answer,
}

-- A message whose root is given.
abbrev message_of : ℤ → SolanaMessage
message_of root = record {
  root_hash_hinkal = root;
  mint_account_part1 = pos 1 ∷ [];
  mint_account_part2 = pos 2 ∷ [];
  amount_changes = pos 300 ∷ [];
  out_time_stamp = pos 4;
  in_nullifiers = pos 5 ∷ pos 6 ∷ [];
  out_commitments = [];
  calldata_hash = pos 7;
  message = pos 8;
  swapper_account_additional_seed = pos 9;
  out_h1_ay = pos 10;
  h0_ax = pos 11;
  h0_ay = pos 12;
}

solana_preimage-injective_example : IsSameMessage (message_of (pos 3)) (message_of (negsuc 2))
unfolding solana_preimage length_prefixed bytes32_all fill_bytes big_endian ◌then_append◌
solana_preimage-injective_example =
    solana_preimage-injective (message_of (pos 3)) (message_of (negsuc 2)) _ refl refl

-- A root that 32 bytes do not hold panics.
wide_root_run : solana_preimage (message_of (pos (2 ^ 256))) ≡ err too_wide
unfolding solana_preimage fill_bytes ◌then_append◌
wide_root_run = refl

-- The answer with the hash 487 is accepted.
answer_run :
    verify_prepare_solana_tx_response small_library solana_payload
      (solana_answer (52 ∷ 56 ∷ 55 ∷ []))
      solana_dimensions
    ≡ ok tt
unfolding compute_in_nullifiers in_rows in_row in_slot spend is_different strings_to_big_ints
    traverse big_int parse_big_int parse_trimmed trim_left trim_right strip_hex set_string
    digits_value digit build_note new_utxo choose_h0 get_commitment get_nullifier
    get_stealth_address poseidon_big mod_field to_be_hex nat_text digits_text self_slot_count
    expected_output_commitment self_slot self_row recipient_slot recipient_row out_row out_rows
    compute_out_commitments add_amounts assert_self_outputs assert_rows_long_enough
    assert_row_conserves assert_rows_conserve assert_requested_outputs assert_amounts_conserve
    solana_preimage length_prefixed bytes32_all fill_bytes big_endian ◌then_append◌
    expected_dimensions assert_dimensions_match instruction_bytes instructions_bytes
    signed_message_hash_solana format_mint_address solana_calldata_hash encrypted_outputs_for_hash
    solana_changes_from compute_solana_amount_changes_signed
    compute_solana_calldata_hash_and_message assert_solana_hash_matches
    verify_prepare_solana_tx_response flat_to_big_ints expand_bool_per_token wrap_amount_change
    set_bytes split_commas ◌+ℤ◌
answer_run = refl

abbrev mint_token : Text
mint_token = 48 ∷ 120 ∷ 48 ∷ 51 ∷ 55 ∷ 97 ∷ []

mints_run :
    traverse (format_mint_address small_library) solana_payload.mint_addresses
    ≡ ok ((0, 24930, mint_token) ∷ [])
unfolding traverse format_mint_address set_bytes poseidon_big mod_field to_be_hex nat_text
    digits_text
mints_run = refl

keys : strings_to_big_ints (digit_text 1 ∷ digit_text 2 ∷ []) ≡ ok (pos 1 ∷ pos 2 ∷ [])
unfolding strings_to_big_ints traverse big_int parse_big_int parse_trimmed trim_left trim_right
    strip_hex set_string digits_value digit
keys = refl

five : big_int (digit_text 5) ≡ ok (pos 5)
unfolding big_int parse_big_int parse_trimmed trim_left trim_right strip_hex set_string digits_value
    digit
five = refl

spend_run :
    spend small_library
      (digit_text 7)
      (pos 1 ∷ pos 2 ∷ [])
      mint_token
      (pos 5)
      (digit_text 3)
      (digit_text 4)
      (digit_text 2)
    ≡ ok (solana_commitment, 48 ∷ 120 ∷ 48 ∷ 51 ∷ 101 ∷ 52 ∷ [])
unfolding compute_in_nullifiers in_rows in_row in_slot spend is_different strings_to_big_ints
    traverse big_int parse_big_int parse_trimmed trim_left trim_right strip_hex set_string
    digits_value digit build_note new_utxo choose_h0 get_commitment get_nullifier
    get_stealth_address poseidon_big mod_field to_be_hex nat_text digits_text
spend_run = refl

verify_prepare_solana_tx_response-authorised_example :
    is_member solana_commitment (solana_commitment ∷ []) ≡ true
verify_prepare_solana_tx_response-authorised_example =
    verify_prepare_solana_tx_response-authorised small_library solana_payload
      (solana_answer (52 ∷ 56 ∷ 55 ∷ [])) solana_dimensions ((0, 24930, mint_token) ∷ [])
      (solana_commitment ∷ []) (pos 1 ∷ pos 2 ∷ []) mint_token (digit_text 5) (digit_text 3)
      (digit_text 4) (digit_text 2) (pos 5) (solana_commitment, 48 ∷ 120 ∷ 48 ∷ 51 ∷ 101 ∷ 52 ∷ [])
      answer_run mints_run refl (refl, tt) keys (first_row first_slot) five refl spend_run
