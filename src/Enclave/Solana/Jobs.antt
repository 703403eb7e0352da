-- ===== src/Enclave/Solana/Jobs.antt =====
-- The check of the jobs that withdraw stuck notes on Solana:
-- `verifySolanaStuckWithdrawJobSignedMessageHash` of
-- internal/functions/enclave/construct_tx_enclave_verify.go, and the loop over the jobs of
-- `PrepareSolanaStuckWithdrawEnclaveCall` of construct_solana_tx_enclave.go.
use hinkal_go.Prelude.{
  ℕ, suc, none, List, [], ◌∷◌, map, Text, text_eq, Result, ok, ◌>>=◌, ◌>>◌, if◌then◌else◌, or_err,
}
use hinkal_go.Prelude.Dict.{lookup}
use hinkal_go.Prelude.Int.{pos, neg_ℤ, ltb_ℤ}
use hinkal_go.Numbers.{int_text, nat_text}
use hinkal_go.Fees.{FeeStructure}
use hinkal_go.Enclave.{
  EnclaveError, bad_public_key, no_fee_structure, Library, big_int, at, flatten, wrap_amount_change,
  poseidon_big,
}
use hinkal_go.Enclave.Inputs.{compute_in_nullifiers}
use hinkal_go.Enclave.Outputs.{compute_out_commitments}
use hinkal_go.Enclave.Amounts.{add_amounts, assert_amounts_conserve, stuck_withdraw_job_covers_fee}
use hinkal_go.Enclave.Request.{Preimage}
use hinkal_go.Enclave.Stuck.{no_repeated_stuck_notes}
use hinkal_go.Enclave.Solana.{
  DimData, expected_dimensions, assert_dimensions_match, format_mint_address, solana_calldata_hash,
}
use hinkal_go.Enclave.Solana.Check.{assert_solana_hash_matches}

-- What the caller gives for all jobs; the fee structures are by the number of notes.
pub record SolanaStuckWithdraw : Type 0 where
  pub mint_address : Text
  pub recipient : Text
  pub nullifying_key : Text
  pub spending_public_key : Text × Text
  pub fee_structures : List (Text × FeeStructure)

-- `types.PreparedStuckWithdrawJobType`
pub record SolanaJob : Type 0 where
  pub preimage : Preimage
  pub dimensions : DimData

-- The number of notes: the amounts that are above zero.
unfoldable pub count_positive : List Text → Result EnclaveError ℕ
count_positive [] = ok 0
count_positive (a ∷ amounts) = big_int a >>= λ v.
    count_positive amounts >>= λ count. ok (if ltb_ℤ (pos 0) v then suc count else count)

module _ (lib : Library) where
  -- `verifySolanaStuckWithdrawJobSignedMessageHash`, with the set of nullifiers after it.
  unfoldable pub verify_solana_stuck_withdraw_job :
      SolanaStuckWithdraw → FeeStructure → SolanaJob → List Text → Result EnclaveError (List Text)
  verify_solana_stuck_withdraw_job w fees job spent_before =
      let p = job.preimage in
      format_mint_address lib w.mint_address >>= λ mint.
      compute_in_nullifiers lib (mint.2 ∷ []) p.in_amounts p.in_h0_ax p.in_h0_ay p.in_time_stamps
        w.nullifying_key w.spending_public_key none
      >>= λ in_nullifiers. no_repeated_stuck_notes in_nullifiers spent_before >>= λ spent.
          compute_out_commitments lib (mint.2 ∷ []) none p.out_amounts p.out_note_h0_ax
            p.out_note_h0_ay p.out_time_stamp w.nullifying_key w.spending_public_key [] []
          >>= λ out_commitments. at p.in_amounts 0 >>= add_amounts (pos 0) >>= λ input_total.
              stuck_withdraw_job_covers_fee input_total fees.flat_fee
              >> (assert_amounts_conserve (mint.2 ∷ []) p.in_amounts p.out_amounts none
                    (int_text (neg_ℤ input_total) ∷ [])
                  >> (big_int p.message_seed >>= λ message_seed.
                      poseidon_big lib (message_seed ∷ []) >>= λ message.
                      or_err (lib.public_key w.recipient) bad_public_key >>= λ recipient.
                      or_err (lib.public_key p.relay) bad_public_key >>= λ signer.
                      assert_dimensions_match job.dimensions
                        (expected_dimensions 1 in_nullifiers out_commitments)
                      >> (solana_calldata_hash lib job.dimensions recipient signer
                            (map lib.from_hex (flatten p.encrypted_outputs)) [] fees.flat_fee
                            fees.variable_rate [] []
                          >>= λ calldata_hash. poseidon_big lib (pos 0 ∷ []) >>= λ zero_seed.
                              assert_solana_hash_matches lib p (pos (mint.0) ∷ [])
                                (pos (mint.1) ∷ []) in_nullifiers out_commitments calldata_hash
                                (pos message) (wrap_amount_change lib (neg_ℤ input_total) ∷ [])
                                (pos zero_seed)
                              >> ok spent)))

  -- The jobs of `PrepareSolanaStuckWithdrawEnclaveCall` in turn, from a set of spent nullifiers on.
  unfoldable pub verify_solana_jobs :
      SolanaStuckWithdraw → List SolanaJob → List Text → Result EnclaveError (List Text)
  unfolding verify_solana_stuck_withdraw_job count_positive
  verify_solana_jobs w [] spent = ok spent
  verify_solana_jobs w (job ∷ jobs) spent =
      at job.preimage.in_amounts 0 >>= count_positive >>= λ count.
      or_err (lookup (nat_text 10 count) w.fee_structures) no_fee_structure >>= λ fees.
      verify_solana_stuck_withdraw_job w fees job spent >>= λ after. verify_solana_jobs w jobs after
