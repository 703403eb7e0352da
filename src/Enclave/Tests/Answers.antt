-- ===== src/Enclave/Tests/Answers.antt =====
-- A small library, and an answer and jobs that are accepted with it.
use hinkal_go.Prelude.{
  ℕ, ◌+◌, ◌*◌, ◌%◌, true, false, none, some, List, [], ◌∷◌, ◌++◌, length, Text, if◌then◌else◌,
}
use hinkal_go.Prelude.Int.{ℤ, pos, pos_part, neg_part}
use hinkal_go.Enclave.{
  Bytes, AbiValue, abi_uint16, abi_uint256, abi_address, abi_bytes, abi_bytes_arr2, abi_bool_arr,
  abi_bool, abi_int256_arr, abi_uint256_arr, abi_external_action, abi_hook, abi_fee_structure,
  Library,
}
use hinkal_go.Enclave.Solana.{DimData}
use hinkal_go.Enclave.Solana.Check.{PrepareSolanaTxRequest}
use hinkal_go.Enclave.Stuck.{StuckWithdraw}
use hinkal_go.Enclave.Request.{PrepareTxRequest, Preimage, PrepareTxResponse}

abbrev mix : ℕ → List ℕ → ℕ
mix acc [] = acc
mix acc (x ∷ xs) = mix ((acc * 31 + x + 7) % 1009) xs

abbrev encode_int : ℤ → Bytes
encode_int a = pos_part a ∷ neg_part a ∷ []

abbrev encode_ints : List ℤ → Bytes
encode_ints [] = []
encode_ints (a ∷ vs) = encode_int a ++ encode_ints vs

abbrev encode : AbiValue → Bytes
encode (abi_uint16 n) = 1 ∷ n ∷ []
encode (abi_uint256 a) = 2 ∷ encode_int a
encode (abi_address n) = 3 ∷ n ∷ []
encode (abi_bytes b) = 4 ∷ b
encode (abi_bytes_arr2 rows) = 5 ∷ length rows ∷ []
encode (abi_bool_arr bs) = 6 ∷ length bs ∷ []
encode (abi_bool b) = (if b then 7 else 8) ∷ []
encode (abi_int256_arr vs) = 9 ∷ encode_ints vs
encode (abi_uint256_arr vs) = 10 ∷ encode_ints vs
encode (abi_external_action n a b) = 11 ∷ n ∷ encode_int a ++ b
encode (abi_hook n m a b) = 12 ∷ n ∷ m ∷ a ++ b
encode (abi_fee_structure n a b) = 13 ∷ n ∷ encode_int a ++ encode_int b

abbrev encode_all : List AbiValue → Bytes
encode_all [] = []
encode_all (v ∷ values) = encode v ++ encode_all values

abbrev pub small_library : Library
small_library = record {
  field_p = 1009;
  poseidon = λ xs. some (mix 1 xs);
  keccak = mix 2;
  sha256 = mix 3;
  pack = λ values. some (encode_all values);
  from_hex = λ t. t;
  hex_to_address = length;
  decode_base58 = λ t. some t;
  public_key = λ t. some t;
  stealth_address = λ h0 nk spk. some (49 ∷ []);
  verify_stealth_pair = λ h0 h1 nk. some true;
  find_randomization = λ nk. none;
  find_h0 = λ r nk. none;
  current_time = 53 ∷ [];
}

-- "0x1", and one-digit numbers
abbrev pub token : Text
token = 48 ∷ 120 ∷ 49 ∷ []

abbrev pub digit_text : ℕ → Text
digit_text d = (48 + d) ∷ []

-- The commitment of the note of the inputs.
abbrev pub commitment : Text
commitment = 48 ∷ 120 ∷ 48 ∷ 49 ∷ 100 ∷ 49 ∷ []

abbrev pub payload : PrepareTxRequest
payload = record {
  hinkal_address = token;
  erc20_addresses = token ∷ [];
  amount_changes = (45 ∷ 51 ∷ []) ∷ [];
  external_address = [];
  original_sender = [];
  fee_structure = none;
  external_action_id = [];
  external_action_metadata = [];
  on_chain_creation = [];
  recipient_address = (55 ∷ 44 ∷ 56 ∷ 44 ∷ 57 ∷ []) ∷ [];
  recipient_amounts = (digit_text 2 ∷ []) ∷ [];
  self_output_amounts = none;
  input_commitments = some (commitment ∷ []);
  create_blocked_utxos = false;
  force_empty_utxos = false;
  speculative = none;
  slippage_values = none;
  nullifying_key = digit_text 7;
  spending_public_key = (digit_text 1, digit_text 2);
}

abbrev pub preimage : Preimage
preimage = record {
  signed_message_hash = 51 ∷ 50 ∷ 51 ∷ [];
  root_hash_hinkal = digit_text 6;
  out_time_stamp = digit_text 9;
  out_h1_ax = digit_text 1;
  out_h1_ay = digit_text 2;
  h0_ax = digit_text 3;
  h0_ay = digit_text 4;
  out_amounts = (digit_text 2 ∷ []) ∷ [];
  out_note_h0_ax = (digit_text 3 ∷ []) ∷ [];
  out_note_h0_ay = (digit_text 4 ∷ []) ∷ [];
  message_seed = digit_text 8;
  encrypted_outputs = [];
  on_chain_encrypted_output = [];
  in_amounts = (digit_text 5 ∷ digit_text 0 ∷ []) ∷ [];
  in_h0_ax = (digit_text 3 ∷ digit_text 0 ∷ []) ∷ [];
  in_h0_ay = (digit_text 4 ∷ digit_text 0 ∷ []) ∷ [];
  in_time_stamps = (digit_text 2 ∷ digit_text 0 ∷ []) ∷ [];
  relay = [];
}

-- The answer with a text in the place of its hash, and with the hash of the data.
abbrev pub response_of : Text → PrepareTxResponse
response_of hash = record {
  preimage = record preimage { signed_message_hash = hash };
  request_erc20_addresses = token ∷ [];
}

abbrev pub response : PrepareTxResponse
response = response_of (51 ∷ 50 ∷ 51 ∷ [])

-- A job that withdraws a note of an amount, with a hash.
abbrev pub job_of : ℕ → Text → Preimage
job_of amount hash = record preimage {
  signed_message_hash = hash;
  in_amounts = (digit_text amount ∷ digit_text 0 ∷ []) ∷ [];
  out_amounts = (digit_text 0 ∷ []) ∷ [];
}

abbrev pub jobs : List Preimage
jobs = job_of 5 (57 ∷ 57 ∷ 48 ∷ []) ∷ job_of 6 (54 ∷ 52 ∷ 51 ∷ []) ∷ []

abbrev pub stuck : StuckWithdraw
stuck = record {
  chain_id = 1;
  hinkal_address = token;
  erc20_token_address = token;
  external_address = [];
  fee_structure = record { fee_token = token; flat_fee = pos 3; variable_rate = pos 0 };
  nullifying_key = digit_text 7;
  spending_public_key = (digit_text 1, digit_text 2);
}

-- The commitment of the Solana answer's note.
abbrev pub solana_commitment : Text
solana_commitment = 48 ∷ 120 ∷ 97 ∷ 98 ∷ []

abbrev pub solana_payload : PrepareSolanaTxRequest
solana_payload = record {
  mint_addresses = (97 ∷ 98 ∷ []) ∷ [];
  amount_changes = (45 ∷ 51 ∷ []) ∷ [];
  relay_address = 100 ∷ [];
  recipient = 101 ∷ [];
  signer = [];
  on_chain_creation = [];
  relayer_fee = digit_text 1;
  variable_rate = [];
  hinkal_instructions = [];
  remaining_accounts = [];
  swapper_account_salt = [];
  recipient_address = 55 ∷ 44 ∷ 56 ∷ 44 ∷ 57 ∷ [];
  recipient_amounts = some (digit_text 2 ∷ []);
  input_commitments = some (solana_commitment ∷ []);
  speculative = none;
  nullifying_key = digit_text 7;
  spending_public_key = (digit_text 1, digit_text 2);
}

abbrev pub solana_dimensions : DimData
solana_dimensions = record { token_number = 1; nullifier_amount = 2; output_amount = 2 }

abbrev pub solana_answer : Text → Preimage
solana_answer hash = record preimage { signed_message_hash = hash }
