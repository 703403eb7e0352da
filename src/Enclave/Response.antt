-- ===== src/Enclave/Response.antt =====
-- The check of an EVM or Tron answer: `verifyComputeCalldataHashAndMessage`,
-- `verifyAssertSignedMessageHashMatches`, `verifyAssertTxLevelStealthPairOwnedByCaller` and
-- `verifyPrepareTxResponse` of internal/functions/enclave/construct_tx_enclave_verify.go.
use hinkal_go.Prelude.{
  ℕ, Bool, not, true, false, Option, none, some, List, [], ◌∷◌, map, length, Text, text_eq, ◌==◌,
  if◌then◌else◌, Result, ok, ◌>>=◌, fail_if, ◌>>◌, or_err,
}
use hinkal_go.Prelude.Int.{ℤ, pos, beq_ℤ}
use hinkal_go.Fees.{FeeStructure}
use hinkal_go.Chains.{is_tron_like}
use hinkal_go.Enclave.{
  EnclaveError, bad_stealth_pair, foreign_stealth_pair, hash_mismatch, Library, big_int,
  strings_to_big_ints, flat_to_big_ints, expand_bool_per_token, any_true, zero_address,
  external_address_or_zero, slippage_values, original_sender, calc_public_signal_count,
  wrap_amount_change, poseidon_big, external_action_id_hash,
}
use hinkal_go.Enclave.Inputs.{collect_speculative_input_commitments, compute_in_nullifiers}
use hinkal_go.Enclave.Request.{FeeStructureJson, PrepareTxRequest, Preimage, PrepareTxResponse}
use hinkal_go.Enclave.Outputs.{compute_out_commitments}
use hinkal_go.Enclave.Amounts.{assert_amounts_conserve, compute_amount_changes_signed}
use hinkal_go.Enclave.CallData.{
  SignedMessage, zero_metadata, create_call_data_hash, signed_message_hash_evm,
  signed_message_hash_tron,
}

-- `types.ZeroFeeStructure`
abbrev pub zero_fee_structure : FeeStructure
zero_fee_structure = record { fee_token = zero_address; flat_fee = pos 0; variable_rate = pos 0 }

-- The fee structure that is hashed: the caller's where the transaction is relayed.
unfoldable pub resolve_fee_structure :
    Bool → Option FeeStructureJson → Result EnclaveError FeeStructure
resolve_fee_structure true (some fees) = big_int fees.flat_fee >>= λ flat_fee.
    big_int fees.variable_rate >>= λ variable_rate.
    ok (record { fee_token = fees.fee_token; flat_fee = flat_fee; variable_rate = variable_rate })
resolve_fee_structure true none = ok zero_fee_structure
resolve_fee_structure false fees = ok zero_fee_structure

-- The given slippage values, or those of the signed changes.
unfoldable pub resolve_slippage_values : Option (List Text) → List ℤ → Result EnclaveError (List ℤ)
unfolding strings_to_big_ints slippage_values
resolve_slippage_values none changes = ok (slippage_values changes)
resolve_slippage_values (some values) changes = strings_to_big_ints values

-- What the message's hash is made of besides the answer's own fields.
pub record Recomputed : Type 0 where
  pub calldata_hash : ℤ
  pub message : ℤ
  pub amount_changes : List ℤ

module _ (lib : Library) where
  -- `verifyAssertTxLevelStealthPairOwnedByCaller`
  unfoldable pub assert_stealth_pair_owned :
      List Bool → Text → Text → Text → Text → Text → Result EnclaveError (Unit {0})
  assert_stealth_pair_owned on_chain_creation h0_ax h0_ay out_h1_ax out_h1_ay nullifying_key =
      if not (any_true on_chain_creation)
      then ok tt
      else big_int h0_ax >>= λ h0x. big_int h0_ay >>= λ h0y. big_int out_h1_ax >>= λ h1x.
          big_int out_h1_ay >>= λ h1y.
          or_err (lib.verify_stealth_pair (h0x, h0y) (h1x, h1y) nullifying_key) bad_stealth_pair
          >>= λ owned. fail_if (not owned) foreign_stealth_pair

  -- `verifyComputeCalldataHashAndMessage`
  unfoldable pub compute_calldata_hash_and_message :
      ℕ
      → PrepareTxRequest
      → Preimage
      → List (List Text)
      → List (List Text)
      → Result EnclaveError Recomputed
  unfolding resolve_fee_structure resolve_slippage_values
  compute_calldata_hash_and_message chain_id payload response in_nullifiers out_commitments =
      big_int response.message_seed >>= λ message_seed.
      poseidon_big lib (message_seed ∷ []) >>= λ message.
      let relay = if response.relay == [] then zero_address else response.relay in
      resolve_fee_structure (not (relay == zero_address)) payload.fee_structure >>= λ fees.
      compute_amount_changes_signed payload.erc20_addresses payload.amount_changes
        payload.recipient_amounts
      >>= λ changes. resolve_slippage_values payload.slippage_values changes >>= λ slippages.
          flat_to_big_ints in_nullifiers >>= λ nullifiers_flat.
          flat_to_big_ints out_commitments >>= λ commitments_flat.
          create_call_data_hash lib (record {
            chain_id = chain_id;
            public_signal_count =
                calc_public_signal_count (is_tron_like chain_id) (length payload.erc20_addresses)
                  (length changes) (length nullifiers_flat) (length commitments_flat);
            relay = relay;
            external_address =
                if payload.external_address == [] then relay else payload.external_address;
            external_action_id_hash = external_action_id_hash lib payload.external_action_id;
            external_action_metadata =
                if payload.external_action_metadata == []
                then zero_metadata
                else payload.external_action_metadata;
            emporium_message = pos message;
            encrypted_outputs_hex = response.encrypted_outputs;
            on_chain_encrypted_output_hex = response.on_chain_encrypted_output;
            slippage_values = slippages;
            on_chain_creation =
                expand_bool_per_token payload.on_chain_creation (length payload.erc20_addresses);
            fee_structure = fees;
            original_sender =
                if payload.original_sender == []
                then original_sender (external_address_or_zero payload.external_address) relay
                else payload.original_sender;
            create_blocked_utxos = payload.create_blocked_utxos;
          })
          >>= λ calldata_hash. ok (record {
            calldata_hash = calldata_hash;
            message = pos message;
            amount_changes = map (wrap_amount_change lib) changes;
          })

  -- The hash of the message, of the chain's kind.
  unfoldable pub recompute_hash : ℕ → Text → Preimage → SignedMessage → Result EnclaveError ℤ
  recompute_hash chain_id hinkal_address p m =
      if is_tron_like chain_id
      then signed_message_hash_tron lib m
      else big_int p.out_h1_ax >>= λ out_h1_ax. big_int p.out_h1_ay >>= λ out_h1_ay.
          big_int p.h0_ax >>= λ h0_ax. big_int p.h0_ay >>= λ h0_ay.
          signed_message_hash_evm lib (pos chain_id) hinkal_address m out_h1_ax out_h1_ay h0_ax
            h0_ay

  -- `verifyAssertSignedMessageHashMatches`
  unfoldable pub assert_signed_message_hash_matches :
      ℕ
      → Text
      → Preimage
      → List Text
      → List (List Text)
      → List (List Text)
      → Recomputed
      → Result EnclaveError (Unit {0})
  unfolding recompute_hash
  assert_signed_message_hash_matches chain_id hinkal_address p tokens in_nullifiers out_commitments
        r =
      big_int p.root_hash_hinkal >>= λ root_hash_hinkal.
      big_int p.out_time_stamp >>= λ out_time_stamp.
      flat_to_big_ints in_nullifiers >>= λ in_nullifiers_flat.
      flat_to_big_ints out_commitments >>= λ out_commitments_flat.
      recompute_hash chain_id hinkal_address p (record {
        root_hash_hinkal = root_hash_hinkal;
        erc20_token_addresses = tokens;
        amount_changes = r.amount_changes;
        out_time_stamp = out_time_stamp;
        in_nullifiers_flat = in_nullifiers_flat;
        out_commitments_flat = out_commitments_flat;
        calldata_hash = r.calldata_hash;
        message = r.message;
      })
      >>= λ recomputed. big_int p.signed_message_hash >>= λ expected.
          fail_if (not (beq_ℤ recomputed expected)) hash_mismatch

  -- The commitments that the caller authorised, where there are any.
  unfoldable pub authorised_commitments :
      PrepareTxRequest → Result EnclaveError (Option (List Text))
  authorised_commitments payload = elim payload.input_commitments [
    | some commitments ↦ ok (some commitments)
    | none ↦ collect_speculative_input_commitments lib payload.speculative >>= λ speculative.
        elim speculative [
          | some commitments ↦ ok (some commitments)
          | none ↦ ok (if payload.force_empty_utxos then some [] else none)
        ]
  ]

  -- `verifyPrepareTxResponse`
  unfoldable pub verify_prepare_tx_response :
      ℕ → PrepareTxRequest → PrepareTxResponse → Result EnclaveError (Unit {0})
  unfolding authorised_commitments compute_calldata_hash_and_message
      assert_signed_message_hash_matches assert_stealth_pair_owned
  verify_prepare_tx_response chain_id payload response =
      let p = response.preimage in
      authorised_commitments payload >>= λ authorised.
      compute_in_nullifiers lib payload.erc20_addresses p.in_amounts p.in_h0_ax p.in_h0_ay
        p.in_time_stamps payload.nullifying_key payload.spending_public_key authorised
      >>= λ in_nullifiers.
          compute_out_commitments lib payload.erc20_addresses payload.self_output_amounts
            p.out_amounts p.out_note_h0_ax p.out_note_h0_ay p.out_time_stamp payload.nullifying_key
            payload.spending_public_key payload.recipient_address payload.recipient_amounts
          >>= λ out_commitments.
              assert_amounts_conserve payload.erc20_addresses p.in_amounts p.out_amounts
                payload.self_output_amounts payload.amount_changes
              >> (assert_stealth_pair_owned payload.on_chain_creation p.h0_ax p.h0_ay p.out_h1_ax
                    p.out_h1_ay payload.nullifying_key
                  >> (compute_calldata_hash_and_message chain_id payload p in_nullifiers
                        out_commitments
                      >>= λ recomputed.
                          assert_signed_message_hash_matches chain_id payload.hinkal_address p
                            response.request_erc20_addresses in_nullifiers out_commitments
                            recomputed))
