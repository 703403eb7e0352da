-- ===== src/Enclave/Solana.antt =====
-- The Solana parts: `FormatMintAddress` and `GetSolanaCalldataHash` of
-- internal/functions/solana/solana.go, and `verifyAppendBytes32`,
-- `verifyAppendLengthPrefixedBytes32Array`, `verifyComputeSignedMessageHashSolana` and the checks of
-- the dimensions of internal/functions/enclave/construct_tx_enclave_verify.go.
pub mod Check
pub mod Jobs
pub mod Encoding
pub mod Accepted
use hinkal_go.Prelude.{
  ℕ, zero, suc, ◌+◌, ◌*◌, ◌/◌, ◌%◌, ◌^◌, Bool, not, ◌||◌, Option, none, some, List, [], ◌∷◌, ◌++◌,
  length, Text, nat_eq, ltb, leb, ◌==◌, if◌then◌else◌, Result, ok, err, ◌>>=◌, fail_if, ◌>>◌,
  or_err,
}
use hinkal_go.Prelude.Int.{ℤ, pos, abs_ℕ}
use hinkal_go.Numbers.{to_be_hex}
use hinkal_go.Enclave.{
  EnclaveError, too_wide, dimensions_mismatch, bad_mint_address, Bytes, Library, big_int,
  flat_to_big_ints, traverse, poseidon_big,
}
use hinkal_go.Enclave.CallData.{set_bytes}

-- The last `width` bytes of a number, the most significant first.
unfoldable pub big_endian : ℕ → ℕ → Bytes
big_endian zero n = []
big_endian (suc width) n = big_endian width (n / 256) ++ n % 256 ∷ []

-- `value.FillBytes(buf)` of a buffer of `width` bytes: the absolute value, or a panic.
unfoldable pub fill_bytes : ℕ → ℤ → Result EnclaveError Bytes
unfolding big_endian
fill_bytes width value =
    if leb (256 ^ width) (abs_ℕ value) then err too_wide else ok (big_endian width (abs_ℕ value))

-- `verifyAppendBytes32`, what it appends.
abbrev pub bytes32 : ℤ → Result EnclaveError Bytes
bytes32 = fill_bytes 32

-- What one append after another gives.
infixr 40 ◌then_append◌
unfoldable pub ◌then_append◌ :
    Result EnclaveError Bytes → Result EnclaveError Bytes → Result EnclaveError Bytes
first then_append rest = first >>= λ bytes. rest >>= λ more. ok (bytes ++ more)

-- The values one after another.
unfoldable pub bytes32_all : List ℤ → Result EnclaveError Bytes
unfolding ◌then_append◌
bytes32_all [] = ok []
bytes32_all (v ∷ values) = fill_bytes 32 v then_append bytes32_all values

-- `verifyAppendLengthPrefixedBytes32Array`, what it appends.
unfoldable pub length_prefixed : List ℤ → Result EnclaveError Bytes
unfolding bytes32_all ◌then_append◌
length_prefixed values = fill_bytes 8 (pos (length values)) then_append bytes32_all values

-- `verifySolanaSignedMessageHashParams`, with the flat lists of numbers.
pub record SolanaMessage : Type 0 where
  pub root_hash_hinkal : ℤ
  pub mint_account_part1 : List ℤ
  pub mint_account_part2 : List ℤ
  pub amount_changes : List ℤ
  pub out_time_stamp : ℤ
  pub in_nullifiers : List ℤ
  pub out_commitments : List ℤ
  pub calldata_hash : ℤ
  pub message : ℤ
  pub swapper_account_additional_seed : ℤ
  pub out_h1_ay : ℤ
  pub h0_ax : ℤ
  pub h0_ay : ℤ

-- The bytes that `verifyComputeSignedMessageHashSolana` hashes.
unfoldable pub solana_preimage : SolanaMessage → Result EnclaveError Bytes
unfolding ◌then_append◌
solana_preimage m =
    fill_bytes 32 m.root_hash_hinkal
    then_append length_prefixed m.mint_account_part1
    then_append length_prefixed m.mint_account_part2
    then_append length_prefixed m.amount_changes
    then_append fill_bytes 32 m.out_time_stamp
    then_append length_prefixed m.in_nullifiers
    then_append length_prefixed m.out_commitments
    then_append fill_bytes 32 m.calldata_hash
    then_append fill_bytes 32 m.message
    then_append fill_bytes 32 m.swapper_account_additional_seed
    then_append fill_bytes 32 m.out_h1_ay
    then_append fill_bytes 32 m.h0_ax
    then_append fill_bytes 32 m.h0_ay

-- `types.DimDataType`
pub record DimData : Type 0 where
  pub token_number : ℕ
  pub nullifier_amount : ℕ
  pub output_amount : ℕ

abbrev pub first_length : List (List Text) → ℕ
first_length [] = 0
first_length (row ∷ rows) = length row

-- `verifyComputeExpectedDimensions`
unfoldable pub expected_dimensions : ℕ → List (List Text) → List (List Text) → DimData
expected_dimensions token_count in_nullifiers out_commitments = record {
  token_number = token_count;
  nullifier_amount = first_length in_nullifiers;
  output_amount = first_length out_commitments;
}

-- `verifyAssertDimensionsMatch`
unfoldable pub assert_dimensions_match : DimData → DimData → Result EnclaveError (Unit {0})
assert_dimensions_match d expected =
    fail_if
      (not (d.token_number == expected.token_number)
        || not (d.nullifier_amount == expected.nullifier_amount)
        || not (d.output_amount == expected.output_amount))
      dimensions_mismatch

-- `HinkalInstruction`
pub record HinkalInstruction : Type 0 where
  pub account_indexes : Bytes
  pub data_bytes : Bytes
  pub program_index : ℕ

-- `solana.AccountMeta`, of which the hash reads the key and the flag.
pub record AccountMeta : Type 0 where
  pub public_key : Bytes
  pub is_writable : Bool

-- `appendBE(bytes, len(cur), 8)` and the bytes
abbrev pub counted : Bytes → Bytes
counted bytes = big_endian 8 (length bytes) ++ bytes

abbrev pub concat_map {ℓ} : {A : Type ℓ} → (A → Bytes) → List A → Bytes
concat_map f [] = []
concat_map f (x ∷ xs) = f x ++ concat_map f xs

-- An instruction; a program index that a byte cannot hold panics.
unfoldable pub instruction_bytes : HinkalInstruction → Result EnclaveError Bytes
unfolding ◌then_append◌
instruction_bytes ins =
    fill_bytes 1 (pos ins.program_index)
    then_append ok (counted ins.account_indexes ++ counted ins.data_bytes)

unfoldable pub instructions_bytes : List HinkalInstruction → Result EnclaveError Bytes
unfolding instruction_bytes ◌then_append◌
instructions_bytes [] = ok []
instructions_bytes (ins ∷ rest) = instruction_bytes ins then_append instructions_bytes rest

-- An account of the hash.
abbrev pub account_bytes : AccountMeta → Bytes
account_bytes acc = (if acc.is_writable then 1 else 0) ∷ acc.public_key

module _ (lib : Library) where
  -- `verifyComputeSignedMessageHashSolana`, of the flat lists.
  unfoldable pub signed_message_hash_solana : SolanaMessage → Result EnclaveError ℤ
  unfolding solana_preimage
  signed_message_hash_solana m =
      solana_preimage m >>= λ bytes. ok (pos (lib.sha256 bytes % lib.field_p))

  -- `FormatMintAddress`: the two parts and the compressed address.
  unfoldable pub format_mint_address : Text → Result EnclaveError (ℕ × ℕ × Text)
  unfolding set_bytes
  format_mint_address mint = or_err (lib.decode_base58 mint) bad_mint_address >>= λ key_bytes.
      let mint_big_int = set_bytes 0 key_bytes in
      let part1 = mint_big_int / 2 ^ 128 in
      let part2 = mint_big_int % 2 ^ 128 in
      poseidon_big lib (pos part1 ∷ pos part2 ∷ []) >>= λ compressed.
      ok (part1, part2, to_be_hex compressed)

  -- `GetSolanaCalldataHash`
  unfoldable pub solana_calldata_hash :
      DimData
      → Bytes
      → Bytes
      → List Bytes
      → Bytes
      → ℤ
      → ℤ
      → List HinkalInstruction
      → List AccountMeta
      → Result EnclaveError ℤ
  unfolding instructions_bytes ◌then_append◌
  solana_calldata_hash d recipient signer encrypted_outputs on_chain relayer_fee variable_rate
        instructions accounts =
      ok (
          d.token_number % 256 ∷ d.nullifier_amount % 256 ∷ d.output_amount % 256 ∷ recipient
          ++ signer
          ++ concat_map counted encrypted_outputs
          ++ on_chain)
        then_append fill_bytes 8 relayer_fee
        then_append fill_bytes 8 variable_rate
        then_append instructions_bytes instructions
        then_append ok (concat_map account_bytes accounts)
      >>= λ bytes. ok (pos (lib.sha256 bytes % lib.field_p))
