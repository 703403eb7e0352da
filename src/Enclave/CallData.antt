-- ===== src/Enclave/CallData.antt =====
-- The hashes that are signed: `verifyCreateCallDataHash`, `verifyPackAndHash` and
-- `verifyComputeSignedMessageHashEvm` and `Tron` of
-- internal/functions/enclave/construct_tx_enclave_verify.go, over the ABI encoder and Keccak.
use hinkal_go.Prelude.{
  ℕ, ◌+◌, ◌*◌, ◌%◌, ◌^◌, Bool, List, [], ◌∷◌, ◌++◌, map, Text, if◌then◌else◌, Result, ok, ◌>>=◌,
  or_err,
}
use hinkal_go.Prelude.Int.{ℤ, pos}
use hinkal_go.Fees.{FeeStructure}
use hinkal_go.Chains.{is_tron_like}
use hinkal_go.Enclave.{
  EnclaveError, encoding_failed, Bytes, AbiValue, abi_uint16, abi_uint256, abi_address, abi_bytes,
  abi_bytes_arr2, abi_bool_arr, abi_bool, abi_int256_arr, abi_uint256_arr, abi_external_action,
  abi_hook, abi_fee_structure, Library,
}

-- The arguments of `verifyCreateCallDataHash`.
pub record CallData : Type 0 where
  pub chain_id : ℕ
  pub public_signal_count : ℕ
  pub relay : Text
  pub external_address : Text
  pub external_action_id_hash : ℤ
  pub external_action_metadata : Text
  pub emporium_message : ℤ
  pub encrypted_outputs_hex : List (List Text)
  pub on_chain_encrypted_output_hex : Text
  pub slippage_values : List ℤ
  pub on_chain_creation : List Bool
  pub fee_structure : FeeStructure
  pub original_sender : Text
  pub create_blocked_utxos : Bool

-- The arguments of the two hashes of a message; Tron signs the first eight only.
pub record SignedMessage : Type 0 where
  pub root_hash_hinkal : ℤ
  pub erc20_token_addresses : List Text
  pub amount_changes : List ℤ
  pub out_time_stamp : ℤ
  pub in_nullifiers_flat : List ℤ
  pub out_commitments_flat : List ℤ
  pub calldata_hash : ℤ
  pub message : ℤ

-- "0x00"
abbrev pub zero_metadata : Text
zero_metadata = 48 ∷ 120 ∷ 48 ∷ 48 ∷ []

-- "0x"
abbrev pub empty_hex : Text
empty_hex = 48 ∷ 120 ∷ []

-- `new(big.Int).SetBytes(bytes)`
unfoldable pub set_bytes : ℕ → Bytes → ℕ
set_bytes acc [] = acc
set_bytes acc (b ∷ bytes) = set_bytes (acc * 256 + b) bytes

module _ (lib : Library) where
  -- `verifyPackAndHash`; the values carry their Solidity types.
  unfoldable pub pack_and_hash : List AbiValue → Result EnclaveError ℕ
  pack_and_hash values =
      or_err (lib.pack values) encoding_failed >>= λ encoded. ok (lib.keccak encoded)

  -- The first part of the data.
  unfoldable pub call_data_part1 : CallData → List AbiValue
  unfolding is_tron_like
  call_data_part1 c =
      (abi_uint16 (c.public_signal_count % 2 ^ 16)
        ∷ abi_address (lib.hex_to_address c.relay)
        ∷ abi_uint256 c.emporium_message
        ∷ abi_external_action (lib.hex_to_address c.external_address) c.external_action_id_hash
            (lib.from_hex c.external_action_metadata)
        ∷ [])
      ++ (if is_tron_like c.chain_id then [] else abi_int256_arr c.slippage_values ∷ [])

  -- The second part.
  unfoldable pub call_data_part2 : CallData → List AbiValue
  unfolding is_tron_like
  call_data_part2 c =
      let fees =
        abi_fee_structure (lib.hex_to_address c.fee_structure.fee_token) c.fee_structure.flat_fee
          c.fee_structure.variable_rate in
      abi_hook 0 0 (lib.from_hex zero_metadata) (lib.from_hex zero_metadata)
      ∷ abi_bytes_arr2 (map (map lib.from_hex) c.encrypted_outputs_hex)
      ∷ (if is_tron_like c.chain_id
          then fees
            ∷ abi_int256_arr c.slippage_values
            ∷ abi_address (lib.hex_to_address c.original_sender)
            ∷ abi_bytes (lib.from_hex empty_hex)
            ∷ abi_bool c.create_blocked_utxos
            ∷ []
          else abi_bytes (lib.from_hex c.on_chain_encrypted_output_hex)
            ∷ fees
            ∷ abi_bool_arr c.on_chain_creation
            ∷ abi_address (lib.hex_to_address c.original_sender)
            ∷ abi_bytes (lib.from_hex empty_hex)
            ∷ [])

  -- `verifyCreateCallDataHash`: both parts are encoded before either is hashed.
  unfoldable pub create_call_data_hash : CallData → Result EnclaveError ℤ
  unfolding call_data_part1 call_data_part2
  create_call_data_hash c = or_err (lib.pack (call_data_part1 c)) encoding_failed >>= λ encoded1.
      or_err (lib.pack (call_data_part2 c)) encoding_failed >>= λ encoded2.
      or_err
        (lib.pack
          (abi_uint256 (pos (lib.keccak encoded1)) ∷ abi_uint256 (pos (lib.keccak encoded2)) ∷ []))
        encoding_failed
      >>= λ final. ok (pos (lib.keccak final % lib.field_p))

  -- `verifyTokenAddressesAsInts`
  unfoldable pub token_addresses_as_ints : List Text → List ℤ
  unfolding set_bytes
  token_addresses_as_ints = map (λ a. pos (set_bytes 0 (lib.from_hex a)))

  -- `verifyComputeSignedMessageHashEvm`; the last four are the points `H1` and `H0`.
  unfoldable pub signed_message_hash_evm :
      ℤ → Text → SignedMessage → ℤ → ℤ → ℤ → ℤ → Result EnclaveError ℤ
  unfolding pack_and_hash token_addresses_as_ints
  signed_message_hash_evm chain_id verifying_contract m out_h1_ax out_h1_ay h0_ax h0_ay =
      pack_and_hash (
        abi_uint256 chain_id
        ∷ abi_address (lib.hex_to_address verifying_contract)
        ∷ abi_uint256 m.root_hash_hinkal
        ∷ abi_uint256_arr (token_addresses_as_ints m.erc20_token_addresses)
        ∷ abi_uint256_arr m.amount_changes
        ∷ abi_uint256 m.out_time_stamp
        ∷ abi_uint256_arr m.in_nullifiers_flat
        ∷ abi_uint256_arr m.out_commitments_flat
        ∷ abi_uint256 m.calldata_hash
        ∷ abi_uint256 m.message
        ∷ [])
      >>= λ hash1.
          pack_and_hash (
            abi_uint256 out_h1_ax
            ∷ abi_uint256 out_h1_ay
            ∷ abi_uint256 h0_ax
            ∷ abi_uint256 h0_ay
            ∷ [])
          >>= λ hash2.
              pack_and_hash (abi_uint256 (pos hash1) ∷ abi_uint256 (pos hash2) ∷ []) >>= λ hash.
              ok (pos (hash % lib.field_p))

  -- `verifyComputeSignedMessageHashTron`
  unfoldable pub signed_message_hash_tron : SignedMessage → Result EnclaveError ℤ
  unfolding pack_and_hash token_addresses_as_ints
  signed_message_hash_tron m =
      pack_and_hash (
        abi_uint256 m.root_hash_hinkal
        ∷ abi_uint256_arr (token_addresses_as_ints m.erc20_token_addresses)
        ∷ abi_uint256_arr m.amount_changes
        ∷ abi_uint256 m.out_time_stamp
        ∷ abi_uint256_arr m.in_nullifiers_flat
        ∷ abi_uint256_arr m.out_commitments_flat
        ∷ abi_uint256 m.calldata_hash
        ∷ abi_uint256 m.message
        ∷ [])
      >>= λ hash. ok (pos (hash % lib.field_p))
