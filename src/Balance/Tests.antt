-- ===== src/Balance/Tests.antt =====
-- A run of the balances, and the theorems at it.
use hinkal_go.Prelude.{
  ◌≡◌, refl, Bool, true, false, ◌&&◌, not, Option, none, some, List, [], ◌∷◌, select, Text, text_eq,
}
use hinkal_go.Prelude.Int.{pos, ◌+ℤ◌}
use hinkal_go.Prelude.Dict
use hinkal_go.Prelude.Dict.{lookup, insert}
use hinkal_go.PreTransaction.{Utxo}
use hinkal_go.Snapshot.Nullifiers.{Nullifiers}
use hinkal_go.Snapshot.Commitments.{EncryptedOutputWithSign}
use hinkal_go.Balance.{
  balance_or_zero, decoded, is_unspent, credit, count_in, compute_from, compute, decode_outputs,
  filter_spent_utxos,
}
use hinkal_go.Balance.Totals.{total_of, is_keyed, compute-balance, compute-utxos}

abbrev token : Text
token = 97 ∷ []

abbrev holding : Bool → Text → Utxo
holding blocked nullifier = record {
  amount = pos 5;
  erc20_token_address = token;
  mint_address = [];
  time_stamp = nullifier;
  nullifying_key = [];
  spending_public_key = [];
  h0 = (pos 7, pos 1);
  stealth_address = [];
  encryption_key = [];
  is_blocked = blocked;
}

-- An empty output is foreign; the nullifier is the text of an output.
abbrev toy_decode : EncryptedOutputWithSign → Option Utxo
toy_decode out = elim (out.value) [ [] ↦ none | c ∷ s ↦ some (holding false (c ∷ s)) ]

abbrev toy_nullifier : Utxo → Option Text
toy_nullifier u = some u.time_stamp

abbrev toy_key : Utxo → Option Text
toy_key u = some u.erc20_token_address

abbrev encrypted : Text → Bool → EncryptedOutputWithSign
encrypted value blocked = record { value = value; is_positive = true; is_blocked = blocked }

-- Two that count, a foreign one, a spent one and a blocked one.
abbrev outputs : List EncryptedOutputWithSign
outputs =
    encrypted (49 ∷ []) false
    ∷ encrypted [] false
    ∷ encrypted (50 ∷ []) false
    ∷ encrypted (51 ∷ []) true
    ∷ encrypted (52 ∷ []) false
    ∷ []

abbrev spent : Nullifiers
spent = (50 ∷ [], tt) ∷ []

ten : (compute toy_decode toy_nullifier toy_key outputs spent).balances ≡ (token, pos 10) ∷ []
unfolding compute compute_from count_in credit is_unspent decoded lookup insert Dict.contains ◌+ℤ◌
ten = refl

compute-balance_example :
    balance_or_zero (lookup token (compute toy_decode toy_nullifier toy_key outputs spent).balances)
    ≡ total_of toy_decode toy_nullifier toy_key token
        (compute toy_decode toy_nullifier toy_key outputs spent).utxos
compute-balance_example = compute-balance toy_decode toy_nullifier toy_key outputs spent token

compute-utxos_example :
    (compute toy_decode toy_nullifier toy_key outputs spent).utxos
    ≡ select
        (λ u. not u.is_blocked && is_keyed toy_decode toy_nullifier toy_key (toy_key u))
        (filter_spent_utxos toy_decode toy_nullifier toy_key
          (decode_outputs toy_decode toy_nullifier toy_key outputs)
          spent)
compute-utxos_example = compute-utxos toy_decode toy_nullifier toy_key outputs spent
