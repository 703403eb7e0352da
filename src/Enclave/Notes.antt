-- ===== src/Enclave/Notes.antt =====
-- The notes: `GetStealthAddress`, `GetCommitment` and `GetNullifier` of
-- internal/data-structures/utxo/utxo.go, of a note that holds neither a commitment nor a nullifier yet.
use hinkal_go.Prelude.{
  none, some, List, [], ◌∷◌, Text, text_eq, ◌==◌, if◌then◌else◌, Result, ok, err, ◌>>=◌, fail_if,
  ◌>>◌, or_err, false,
}
use hinkal_go.Prelude.Int.{ℤ, pos}
use hinkal_go.PreTransaction.{PreTransactionError, UtxoParams, Utxo, new_utxo}
use hinkal_go.Numbers.{to_be_hex}
use hinkal_go.Enclave.{
  EnclaveError, bad_note, no_nullifying_key, no_stealth_address, Library, big_int, poseidon_big,
}

-- `NewUtxo`, with the enclave's errors.
abbrev built : Result PreTransactionError Utxo → Result EnclaveError Utxo
built (ok u) = ok u
built (err e) = err bad_note

-- The parameters of an own note: `NullifyingKey`, `SpendingPublicKey` and `H0` are set.
abbrev pub own_params : Text → ℤ → Text → List ℤ → ℤ → ℤ → Text → UtxoParams
own_params token amount nullifying_key spending_public_key h0x h0y time_stamp = record {
  amount = amount;
  erc20_token_address = token;
  mint_address = [];
  time_stamp = time_stamp;
  nullifying_key = nullifying_key;
  spending_public_key = spending_public_key;
  randomization = none;
  h0 = some (h0x, h0y);
  stealth_address = [];
  encryption_key = [];
  is_blocked = false;
}

-- The parameters of another's note: `StealthAddress` and `H0` are set.
abbrev pub others_params : Text → ℤ → Text → ℤ → ℤ → Text → UtxoParams
others_params token amount stealth h0x h0y time_stamp = record {
  amount = amount;
  erc20_token_address = token;
  mint_address = [];
  time_stamp = time_stamp;
  nullifying_key = [];
  spending_public_key = [];
  randomization = none;
  h0 = some (h0x, h0y);
  stealth_address = stealth;
  encryption_key = [];
  is_blocked = false;
}

module _ (lib : Library) where
  unfoldable pub build_note : UtxoParams → Result EnclaveError Utxo
  build_note p = built (new_utxo lib.find_randomization lib.find_h0 lib.current_time p)

  -- `GetStealthAddress`
  unfoldable pub get_stealth_address : Utxo → Result EnclaveError Text
  get_stealth_address u =
      if u.stealth_address == []
      then fail_if (u.nullifying_key == []) no_stealth_address
        >> or_err (lib.stealth_address u.h0 u.nullifying_key u.spending_public_key)
            no_stealth_address
      else ok u.stealth_address

  -- `GetCommitment`
  unfoldable pub get_commitment : Utxo → Result EnclaveError Text
  unfolding get_stealth_address
  get_commitment u = get_stealth_address u >>= λ stealth. big_int u.erc20_token_address >>= λ token.
      big_int stealth >>= λ stealth_big. big_int u.time_stamp >>= λ ts.
      poseidon_big lib (u.amount ∷ token ∷ stealth_big ∷ ts ∷ []) >>= λ h. ok (to_be_hex h)

  -- `GetNullifier`
  unfoldable pub get_nullifier : Utxo → Result EnclaveError Text
  unfolding get_commitment
  get_nullifier u =
      fail_if (u.nullifying_key == []) no_nullifying_key
      >> (get_commitment u >>= λ commitment. big_int commitment >>= λ commitment_big.
          big_int u.nullifying_key >>= λ nk.
          poseidon_big lib (nk ∷ commitment_big ∷ []) >>= λ signature.
          poseidon_big lib (commitment_big ∷ pos signature ∷ []) >>= λ nul. ok (to_be_hex nul))
