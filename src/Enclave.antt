-- ===== src/Enclave.antt =====
-- What a client checks of the enclave's answer before it signs:
-- internal/functions/enclave/construct_tx_enclave_verify.go, with the notes of
-- internal/data-structures/utxo/utxo.go that it builds, and `PoseidonBig` of internal/crypto/poseidon.go.
-- The curve, the hashes, the ABI and the address formats are libraries: a `Library` holds what they
-- give. `out_of_range` and `too_wide` are where the code panics.
mod Tests
pub mod Compare
pub mod Notes
pub mod Inputs
pub mod Outputs
pub mod Amounts
pub mod CallData
pub mod Request
pub mod Response
pub mod Stuck
pub mod Spent
pub mod Recipients
pub mod Conserved
pub mod Accepted
pub mod Jobs
pub mod Solana
use hinkal_go.Prelude.{
  ℕ, zero, suc, ◌+◌, ◌-◌, ◌%◌, Bool, true, false, ◌||◌, Option, none, some, List, [], ◌∷◌, ◌++◌,
  map, replicate, get_elem?, Text, text_eq, nat_eq, ltb, ◌==◌, if◌then◌else◌, Result, ok, err,
  ◌>>=◌, fail_if, or_err,
}
use hinkal_go.Prelude.Int.{ℤ, pos, negsuc, ◌+ℤ◌, ltb_ℤ}
use hinkal_go.PreTransaction.{JubPoint, parse_big_int}

pub data EnclaveError : Type 0 where
  out_of_range : EnclaveError
  too_wide : EnclaveError
  not_a_number : EnclaveError
  bad_note : EnclaveError
  no_nullifying_key : EnclaveError
  no_stealth_address : EnclaveError
  hash_failed : EnclaveError
  arrays_mismatch : EnclaveError
  rows_mismatch : EnclaveError
  different_notes : EnclaveError
  recipients_mismatch : EnclaveError
  row_too_short : EnclaveError
  malformed_recipient : EnclaveError
  self_outputs_mismatch : EnclaveError
  amounts_not_conserved : EnclaveError
  bad_stealth_pair : EnclaveError
  foreign_stealth_pair : EnclaveError
  encoding_failed : EnclaveError
  hash_mismatch : EnclaveError
  fee_not_covered : EnclaveError
  repeated_note : EnclaveError
  dimensions_mismatch : EnclaveError
  bad_public_key : EnclaveError
  bad_mint_address : EnclaveError
  no_fee_structure : EnclaveError

-- The bytes of a message.
abbrev pub Bytes : Type 0
Bytes = List ℕ

-- A value that the ABI encodes, of the type that its constructor names; an address is a number.
pub data AbiValue : Type 0 where
  abi_uint16 : ℕ → AbiValue
  abi_uint256 : ℤ → AbiValue
  abi_address : ℕ → AbiValue
  abi_bytes : Bytes → AbiValue
  abi_bytes_arr2 : List (List Bytes) → AbiValue
  abi_bool_arr : List Bool → AbiValue
  abi_bool : Bool → AbiValue
  abi_int256_arr : List ℤ → AbiValue
  abi_uint256_arr : List ℤ → AbiValue
  abi_external_action : ℕ → ℤ → Bytes → AbiValue
  abi_hook : ℕ → ℕ → Bytes → Bytes → AbiValue
  abi_fee_structure : ℕ → ℤ → ℤ → AbiValue

-- The libraries. A digest is the number of its bytes; `none` is an error that is returned.
pub record Library : Type 0 where
  pub field_p : ℕ
  pub poseidon : List ℕ → Option ℕ
  pub keccak : Bytes → ℕ
  pub sha256 : Bytes → ℕ
  pub pack : List AbiValue → Option Bytes
  pub from_hex : Text → Bytes
  pub hex_to_address : Text → ℕ
  pub decode_base58 : Text → Option Bytes
  pub public_key : Text → Option Bytes
  pub stealth_address : JubPoint → Text → List ℤ → Option Text
  pub verify_stealth_pair : JubPoint → JubPoint → Text → Option Bool
  pub find_randomization : Text → Option ℤ
  pub find_h0 : ℤ → Text → Option JubPoint
  pub current_time : Text

-- `utils.ParseBigInt`, or its error.
unfoldable pub big_int : Text → Result EnclaveError ℤ
big_int s = or_err (parse_big_int s) not_a_number

-- `values[i]`, or the panic.
abbrev pub at {ℓ} : {A : Type ℓ} → List A → ℕ → Result EnclaveError A
at xs i = or_err (get_elem? xs i) out_of_range

-- A loop that appends a value for each element, or stops at an error.
unfoldable pub traverse {ℓ κ} :
    {A : Type ℓ} {B : Type κ} → (A → Result EnclaveError B) → List A → Result EnclaveError (List B)
traverse f [] = ok []
traverse f (x ∷ xs) = f x >>= λ y. traverse f xs >>= λ ys. ok (y ∷ ys)

-- `stringsToBigInts`
unfoldable pub strings_to_big_ints : List Text → Result EnclaveError (List ℤ)
unfolding traverse
strings_to_big_ints = traverse big_int

-- The texts of all rows, in order.
abbrev pub flatten {ℓ} : {A : Type ℓ} → List (List A) → List A
flatten [] = []
flatten (row ∷ rows) = row ++ flatten rows

-- `verifyFlatToBigInts`
unfoldable pub flat_to_big_ints : List (List Text) → Result EnclaveError (List ℤ)
unfolding traverse
flat_to_big_ints rows = traverse big_int (flatten rows)

-- `a.Sign() == 0`
abbrev pub is_zero : ℤ → Bool
is_zero (pos n) = n == 0
is_zero (negsuc n) = false

-- `a.Sign() < 0`
abbrev pub is_negative : ℤ → Bool
is_negative (pos n) = false
is_negative (negsuc n) = true

-- "0"
abbrev pub zero_text : Text
zero_text = 48 ∷ []

-- `expandBoolPerToken`
unfoldable pub expand_bool_per_token : List Bool → ℕ → List Bool
expand_bool_per_token values zero = []
expand_bool_per_token [] (suc count) = false ∷ expand_bool_per_token [] count
expand_bool_per_token (v ∷ values) (suc count) = v ∷ expand_bool_per_token values count

-- `anyTrue`
abbrev pub any_true : List Bool → Bool
any_true [] = false
any_true (v ∷ values) = v || any_true values

-- `ZeroAddress`
abbrev pub zero_address : Text
zero_address = 48 ∷ 120 ∷ replicate 40 48

-- `externalAddressOrZero`
abbrev pub external_address_or_zero : Text → Text
external_address_or_zero address = if address == [] then zero_address else address

-- `verifyGetSlippageValues`
unfoldable pub slippage_values : List ℤ → List ℤ
slippage_values [] = []
slippage_values (a ∷ changes) = (if is_negative a then a else pos 0) ∷ slippage_values changes

-- `verifyGetOriginalSender`
abbrev pub original_sender : Text → Text → Text
original_sender external_address relay =
    if relay == zero_address
    then if external_address == [] then zero_address else external_address
    else zero_address

-- `verifyCalcPublicSignalCount`
unfoldable pub calc_public_signal_count : Bool → ℕ → ℕ → ℕ → ℕ → ℕ
calc_public_signal_count is_tron tokens changes nullifiers commitments =
    let base = 1 + 1 + tokens + changes + 1 + nullifiers + commitments + 1 + 1 in
    if tokens == 0 then 3 else if is_tron then base + 1 + 1 else base + 1 + 1 + 1 + 1 + 1

module _ (lib : Library) where
  -- `verifyWrapAmountChange`
  unfoldable pub wrap_amount_change : ℤ → ℤ
  wrap_amount_change amount = if is_negative amount then pos lib.field_p +ℤ amount else amount

  -- `new(big.Int).Mod(a, FieldP)`, which is never negative.
  unfoldable pub mod_field : ℤ → ℕ
  mod_field (pos n) = n % lib.field_p
  mod_field (negsuc n) = lib.field_p - 1 - n % lib.field_p

  -- `PoseidonBig`
  unfoldable pub poseidon_big : List ℤ → Result EnclaveError ℕ
  unfolding mod_field
  poseidon_big inputs = or_err (lib.poseidon (map mod_field inputs)) hash_failed

  -- `verifyGetExternalActionIDHash`
  unfoldable pub external_action_id_hash : Text → ℤ
  external_action_id_hash id = if id == [] then pos 0 else pos (lib.keccak id % lib.field_p)
