-- ===== src/Enclave/Stuck.antt =====
-- The check of the jobs that withdraw stuck notes: `verifyNoRepeatedStuckNotes` and
-- `verifyStuckWithdrawJobSignedMessageHash` of internal/functions/enclave/construct_tx_enclave_verify.go,
-- and the loop over the jobs of `PrepareStuckWithdrawEnclaveCall` of construct_tx_enclave.go.
use hinkal_go.Prelude.{
  ℕ, not, true, false, none, List, [], ◌∷◌, length, Text, text_eq, ◌==◌, if◌then◌else◌, Result, ok,
  ◌>>=◌, fail_if, ◌>>◌,
}
use hinkal_go.Prelude.Sets.{is_member}
use hinkal_go.Prelude.Int.{ℤ, pos, neg_ℤ, beq_ℤ}
use hinkal_go.Numbers.{int_text}
use hinkal_go.Fees.{FeeStructure}
use hinkal_go.Chains.{is_tron_like}
use hinkal_go.Enclave.{
  EnclaveError, repeated_note, hash_mismatch, Library, big_int, at, flat_to_big_ints, zero_text,
  external_address_or_zero, slippage_values, original_sender, calc_public_signal_count,
  wrap_amount_change, poseidon_big,
}
use hinkal_go.Enclave.Inputs.{compute_in_nullifiers}
use hinkal_go.Enclave.Outputs.{compute_out_commitments}
use hinkal_go.Enclave.Amounts.{add_amounts, assert_amounts_conserve, stuck_withdraw_job_covers_fee}
use hinkal_go.Enclave.CallData.{zero_metadata, create_call_data_hash}
use hinkal_go.Enclave.Request.{Preimage}
use hinkal_go.Enclave.Response.{recompute_hash}

-- The loop of `verifyNoRepeatedStuckNotes`; "0" stands for an empty slot.
unfoldable pub no_repeated_notes : List Text → List Text → Result EnclaveError (List Text)
no_repeated_notes [] spent = ok spent
no_repeated_notes (nullifier ∷ nullifiers) spent = elim (nullifier == zero_text) [
  | true ↦ no_repeated_notes nullifiers spent
  | false ↦
      fail_if (is_member nullifier spent) repeated_note
      >> no_repeated_notes nullifiers (nullifier ∷ spent)
]

-- `verifyNoRepeatedStuckNotes`, with the set of nullifiers after it.
unfoldable pub no_repeated_stuck_notes :
    List (List Text) → List Text → Result EnclaveError (List Text)
unfolding no_repeated_notes
no_repeated_stuck_notes in_nullifiers spent =
    at in_nullifiers 0 >>= λ row. no_repeated_notes row spent

-- What the caller gives for all jobs.
pub record StuckWithdraw : Type 0 where
  pub chain_id : ℕ
  pub hinkal_address : Text
  pub erc20_token_address : Text
  pub external_address : Text
  pub fee_structure : FeeStructure
  pub nullifying_key : Text
  pub spending_public_key : Text × Text

module _ (lib : Library) where
  -- The part of `verifyStuckWithdrawJobSignedMessageHash` that makes and compares the hash, of the
  -- nullifiers, the commitments and the total of the inputs.
  unfoldable pub assert_job_hash_matches :
      StuckWithdraw
      → Preimage
      → List (List Text)
      → List (List Text)
      → ℤ
      → Result EnclaveError (Unit {0})
  assert_job_hash_matches w job in_nullifiers out_commitments input_total =
      big_int job.message_seed >>= λ message_seed.
      poseidon_big lib (message_seed ∷ []) >>= λ message.
      flat_to_big_ints in_nullifiers >>= λ in_nullifiers_flat.
      flat_to_big_ints out_commitments >>= λ out_commitments_flat.
      create_call_data_hash lib (record {
        chain_id = w.chain_id;
        public_signal_count =
            calc_public_signal_count (is_tron_like w.chain_id) 1 1 (length in_nullifiers_flat)
              (length out_commitments_flat);
        relay = job.relay;
        external_address = if w.external_address == [] then job.relay else w.external_address;
        external_action_id_hash = pos 0;
        external_action_metadata = zero_metadata;
        emporium_message = pos message;
        encrypted_outputs_hex = job.encrypted_outputs;
        on_chain_encrypted_output_hex = job.on_chain_encrypted_output;
        slippage_values = slippage_values (neg_ℤ input_total ∷ []);
        on_chain_creation = false ∷ [];
        fee_structure = w.fee_structure;
        original_sender = original_sender (external_address_or_zero w.external_address) job.relay;
        create_blocked_utxos = false;
      })
      >>= λ calldata_hash. big_int job.root_hash_hinkal >>= λ root_hash_hinkal.
          big_int job.out_time_stamp >>= λ out_time_stamp.
          recompute_hash lib w.chain_id w.hinkal_address job (record {
            root_hash_hinkal = root_hash_hinkal;
            erc20_token_addresses = w.erc20_token_address ∷ [];
            amount_changes = wrap_amount_change lib (neg_ℤ input_total) ∷ [];
            out_time_stamp = out_time_stamp;
            in_nullifiers_flat = in_nullifiers_flat;
            out_commitments_flat = out_commitments_flat;
            calldata_hash = calldata_hash;
            message = pos message;
          })
          >>= λ recomputed. big_int job.signed_message_hash >>= λ expected.
              fail_if (not (beq_ℤ recomputed expected)) hash_mismatch

  -- `verifyStuckWithdrawJobSignedMessageHash`, with the set of nullifiers after it.
  unfoldable pub verify_stuck_withdraw_job :
      StuckWithdraw → Preimage → List Text → Result EnclaveError (List Text)
  unfolding no_repeated_stuck_notes assert_job_hash_matches
  verify_stuck_withdraw_job w job spent_before =
      compute_in_nullifiers lib (w.erc20_token_address ∷ []) job.in_amounts job.in_h0_ax
        job.in_h0_ay job.in_time_stamps w.nullifying_key w.spending_public_key none
      >>= λ in_nullifiers. no_repeated_stuck_notes in_nullifiers spent_before >>= λ spent.
          compute_out_commitments lib (w.erc20_token_address ∷ []) none job.out_amounts
            job.out_note_h0_ax job.out_note_h0_ay job.out_time_stamp w.nullifying_key
            w.spending_public_key [] []
          >>= λ out_commitments. at job.in_amounts 0 >>= add_amounts (pos 0) >>= λ input_total.
              stuck_withdraw_job_covers_fee input_total w.fee_structure.flat_fee
              >> (assert_amounts_conserve (w.erc20_token_address ∷ []) job.in_amounts
                    job.out_amounts none (int_text (neg_ℤ input_total) ∷ [])
                  >> (assert_job_hash_matches w job in_nullifiers out_commitments input_total
                      >> ok spent))

  -- The jobs of `PrepareStuckWithdrawEnclaveCall` in turn, from a set of spent nullifiers on.
  unfoldable pub verify_jobs :
      StuckWithdraw → List Preimage → List Text → Result EnclaveError (List Text)
  unfolding verify_stuck_withdraw_job
  verify_jobs w [] spent = ok spent
  verify_jobs w (job ∷ jobs) spent =
      verify_stuck_withdraw_job w job spent >>= λ after. verify_jobs w jobs after
