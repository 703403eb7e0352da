-- ===== src/Enclave/Solana/Check.antt =====
-- The check of a Solana answer: `verifyComputeSolanaCalldataHashAndMessage`,
-- `verifyComputeSolanaAmountChangesSigned`, `verifyAssertSolanaSignedMessageHashMatches`,
-- `verifyPrepareSolanaTxResponse` and `verifySolanaStuckWithdrawJobSignedMessageHash` of
-- internal/functions/enclave/construct_tx_enclave_verify.go.
use hinkal_go.Prelude.{
  ℕ, ◌+◌, ◌%◌, Bool, not, true, false, Option, none, some, List, [], ◌∷◌, ◌++◌, map, length, Text,
  text_eq, nat_eq, ◌==◌, if◌then◌else◌, Result, ok, ◌>>=◌, fail_if, ◌>>◌, or_err,
}
use hinkal_go.Prelude.Int.{ℤ, pos, ◌+ℤ◌, beq_ℤ}
use hinkal_go.Enclave.{
  EnclaveError, bad_public_key, hash_mismatch, Bytes, Library, big_int, at, traverse,
  flat_to_big_ints, expand_bool_per_token, any_true, wrap_amount_change, poseidon_big,
}
use hinkal_go.Enclave.Inputs.{
  SpeculativeUtxo, collect_speculative_input_commitments, compute_in_nullifiers,
}
use hinkal_go.Enclave.Outputs.{compute_out_commitments}
use hinkal_go.Enclave.Amounts.{assert_amounts_conserve}
use hinkal_go.Enclave.CallData.{empty_hex}
use hinkal_go.Enclave.Request.{Preimage}
use hinkal_go.Enclave.Solana.{
  DimData, AccountMeta, expected_dimensions, assert_dimensions_match, signed_message_hash_solana,
  format_mint_address, solana_calldata_hash,
}

-- `types.PrepareSolanaTxInstruction`
pub record RequestInstruction : Type 0 where
  pub account_indexes : List ℕ
  pub data_bytes : List ℕ
  pub program_index : ℕ

-- `types.PrepareSolanaTxAccountMeta`, with the fields that are hashed.
pub record RequestAccount : Type 0 where
  pub pubkey : Text
  pub is_writable : Bool

-- `types.PrepareSolanaTxRequestType`, with the fields that the check reads.
pub record PrepareSolanaTxRequest : Type 0 where
  pub mint_addresses : List Text
  pub amount_changes : List Text
  pub relay_address : Text
  pub recipient : Text
  pub signer : Text
  pub on_chain_creation : List Bool
  pub relayer_fee : Text
  pub variable_rate : Text
  pub hinkal_instructions : List RequestInstruction
  pub remaining_accounts : List RequestAccount
  pub swapper_account_salt : Text
  pub recipient_address : Text
  pub recipient_amounts : Option (List Text)
  pub input_commitments : Option (List Text)
  pub speculative : Option (List (List SpeculativeUtxo))
  pub nullifying_key : Text
  pub spending_public_key : Text × Text

-- `intsToBytes`
abbrev pub ints_to_bytes : List ℕ → Bytes
ints_to_bytes = map (λ v. v % 256)

-- The encrypted outputs of a token, empty where the note is created on chain.
abbrev token_outputs : Bool → (Text → Bytes) → List Text → List Bytes
token_outputs true from_hex = map (λ t. [])
token_outputs false from_hex = map from_hex

-- The encrypted outputs that are hashed.
unfoldable pub encrypted_outputs_for_hash :
    (Text → Bytes) → List Bool → List (List Text) → List Bytes
encrypted_outputs_for_hash from_hex creation [] = []
encrypted_outputs_for_hash from_hex [] (outputs ∷ rest) =
    token_outputs false from_hex outputs ++ encrypted_outputs_for_hash from_hex [] rest
encrypted_outputs_for_hash from_hex (zeroed ∷ creation) (outputs ∷ rest) =
    token_outputs zeroed from_hex outputs ++ encrypted_outputs_for_hash from_hex creation rest

-- A number that the request may leave out.
abbrev pub optional_big_int : Text → Result EnclaveError ℤ
optional_big_int s = if s == [] then ok (pos 0) else big_int s

-- The recipient's part of a token's change, where there are recipient amounts.
abbrev recipient_part : Option (List Text) → ℕ → Result EnclaveError ℤ
recipient_part none i = ok (pos 0)
recipient_part (some amounts) i = at amounts i >>= big_int

unfoldable pub solana_changes_from :
    ℕ → List Text → PrepareSolanaTxRequest → Result EnclaveError (List ℤ)
solana_changes_from i [] payload = ok []
solana_changes_from i (_ ∷ mints) payload =
    at payload.amount_changes i >>= big_int >>= λ self_delta.
    recipient_part payload.recipient_amounts i >>= λ amount.
    solana_changes_from (i + 1) mints payload >>= λ rest. ok ((self_delta +ℤ amount) ∷ rest)

-- `verifyComputeSolanaAmountChangesSigned`
unfoldable pub compute_solana_amount_changes_signed :
    PrepareSolanaTxRequest → Result EnclaveError (List ℤ)
unfolding solana_changes_from
compute_solana_amount_changes_signed payload = solana_changes_from 0 payload.mint_addresses payload

module _ (lib : Library) where
  abbrev account_meta : RequestAccount → Result EnclaveError AccountMeta
  account_meta acc = or_err (lib.public_key acc.pubkey) bad_public_key >>= λ pk.
      ok (record { public_key = pk; is_writable = acc.is_writable })

  -- `verifyComputeSolanaCalldataHashAndMessage`: the two numbers.
  unfoldable pub compute_solana_calldata_hash_and_message :
      PrepareSolanaTxRequest
      → Preimage
      → DimData
      → List (List Text)
      → List (List Text)
      → Result EnclaveError (ℤ × ℤ)
  unfolding encrypted_outputs_for_hash traverse
  compute_solana_calldata_hash_and_message payload p dimensions in_nullifiers out_commitments =
      big_int p.message_seed >>= λ message_seed. poseidon_big lib (message_seed ∷ []) >>= λ message.
      assert_dimensions_match dimensions
        (expected_dimensions (length payload.mint_addresses) in_nullifiers out_commitments)
      >> (traverse account_meta payload.remaining_accounts >>= λ accounts.
          or_err (lib.public_key payload.recipient) bad_public_key >>= λ recipient.
          let creation =
            expand_bool_per_token payload.on_chain_creation (length payload.mint_addresses) in
          let named = if payload.signer == [] then payload.relay_address else payload.signer in
          or_err (lib.public_key (if named == [] then p.relay else named)) bad_public_key
          >>= λ signer. optional_big_int payload.relayer_fee >>= λ relayer_fee.
              optional_big_int payload.variable_rate >>= λ variable_rate.
              solana_calldata_hash lib dimensions recipient signer
                (encrypted_outputs_for_hash lib.from_hex creation p.encrypted_outputs)
                (lib.from_hex
                  (if any_true creation then p.on_chain_encrypted_output else empty_hex))
                relayer_fee variable_rate
                (map
                  (λ ins. record {
                    account_indexes = ints_to_bytes ins.account_indexes;
                    data_bytes = ints_to_bytes ins.data_bytes;
                    program_index = ins.program_index;
                  })
                  payload.hinkal_instructions)
                accounts
              >>= λ calldata_hash. ok (calldata_hash, pos message))

  -- `verifyAssertSolanaSignedMessageHashMatches`; the last number is the swapper's seed.
  unfoldable pub assert_solana_hash_matches :
      Preimage
      → List ℤ
      → List ℤ
      → List (List Text)
      → List (List Text)
      → ℤ
      → ℤ
      → List ℤ
      → ℤ
      → Result EnclaveError (Unit {0})
  assert_solana_hash_matches p part1 part2 in_nullifiers out_commitments calldata_hash message
        changes seed =
      big_int p.root_hash_hinkal >>= λ root_hash_hinkal.
      big_int p.out_time_stamp >>= λ out_time_stamp. big_int p.out_h1_ay >>= λ out_h1_ay.
      big_int p.h0_ax >>= λ h0_ax. big_int p.h0_ay >>= λ h0_ay.
      flat_to_big_ints in_nullifiers >>= λ nullifiers.
      flat_to_big_ints out_commitments >>= λ commitments.
      signed_message_hash_solana lib (record {
        root_hash_hinkal = root_hash_hinkal;
        mint_account_part1 = part1;
        mint_account_part2 = part2;
        amount_changes = changes;
        out_time_stamp = out_time_stamp;
        in_nullifiers = nullifiers;
        out_commitments = commitments;
        calldata_hash = calldata_hash;
        message = message;
        swapper_account_additional_seed = seed;
        out_h1_ay = out_h1_ay;
        h0_ax = h0_ax;
        h0_ay = h0_ay;
      })
      >>= λ recomputed. big_int p.signed_message_hash >>= λ expected.
          fail_if (not (beq_ℤ recomputed expected)) hash_mismatch

  -- The commitments that the caller authorised.
  abbrev pub solana_authorised : PrepareSolanaTxRequest → Result EnclaveError (Option (List Text))
  solana_authorised payload = elim payload.input_commitments [
    | some commitments ↦ ok (some commitments)
    | none ↦ collect_speculative_input_commitments lib payload.speculative
  ]

  -- `verifyPrepareSolanaTxResponse`
  unfoldable pub verify_prepare_solana_tx_response :
      PrepareSolanaTxRequest → Preimage → DimData → Result EnclaveError (Unit {0})
  unfolding traverse compute_solana_calldata_hash_and_message compute_solana_amount_changes_signed
      assert_solana_hash_matches
  verify_prepare_solana_tx_response payload p dimensions =
      traverse (format_mint_address lib) payload.mint_addresses >>= λ mints.
      let tokens = map (λ m. m.2) mints in
      let recipients =
        if payload.recipient_address == [] then [] else payload.recipient_address ∷ [] in
      let recipient_amounts : List (List Text) = elim payload.recipient_amounts [
        | none ↦ []
        | some amounts ↦ amounts ∷ []
      ] in
      solana_authorised payload >>= λ authorised.
      compute_in_nullifiers lib tokens p.in_amounts p.in_h0_ax p.in_h0_ay p.in_time_stamps
        payload.nullifying_key payload.spending_public_key authorised
      >>= λ in_nullifiers.
          compute_out_commitments lib tokens none p.out_amounts p.out_note_h0_ax p.out_note_h0_ay
            p.out_time_stamp payload.nullifying_key payload.spending_public_key recipients
            recipient_amounts
          >>= λ out_commitments.
              assert_amounts_conserve tokens p.in_amounts p.out_amounts none payload.amount_changes
              >> (compute_solana_calldata_hash_and_message payload p dimensions in_nullifiers
                    out_commitments
                  >>= λ hashes. compute_solana_amount_changes_signed payload >>= λ changes.
                      optional_big_int payload.swapper_account_salt >>= λ salt.
                      poseidon_big lib (salt ∷ []) >>= λ seed.
                      assert_solana_hash_matches p (map (λ m. pos (m.0)) mints)
                        (map (λ m. pos (m.1)) mints) in_nullifiers out_commitments (hashes.0)
                        (hashes.1) (map (wrap_amount_change lib) changes) (pos seed))
