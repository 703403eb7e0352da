-- ===== src/Balance.antt =====
-- Shielded balances: `Compute` of internal/functions/balance/balance.go, and `DecodeOutputs`,
-- `filterSpentUtxos` of input_utxos.go beside it.
-- Parameters: `decode_output` is `decodeOutput`, which decrypts; `get_nullifier` is `GetNullifier`,
-- a hash; `token_key` is `balanceTokenKey`, which normalises an address. Each may fail.
pub mod Totals
mod Tests
use hinkal_go.Prelude.{
  Bool, true, false, ◌&&◌, ◌||◌, not, Option, none, some, List, [], ◌∷◌, ◌++◌, select, Text,
  text_eq, ◌==◌, if◌then◌else◌,
}
use hinkal_go.Prelude.Int.{ℤ, pos, ◌+ℤ◌, beq_ℤ}
use hinkal_go.Prelude.Dict
use hinkal_go.Prelude.Dict.{lookup, insert}
use hinkal_go.PreTransaction.{Utxo, JubPoint}
use hinkal_go.Snapshot.Nullifiers.{Nullifiers}
use hinkal_go.Snapshot.Commitments.{EncryptedOutputWithSign}

-- `Result` of balance.go.
pub record Balances : Type 0 where
  pub balances : List (Text × ℤ)
  pub utxos : List Utxo

-- A balance that the map does not have is zero.
abbrev pub balance_or_zero : Option ℤ → ℤ
balance_or_zero none = pos 0
balance_or_zero (some b) = b

module _ (decode_output : EncryptedOutputWithSign → Option Utxo)
    (get_nullifier : Utxo → Option Text) (token_key : Utxo → Option Text) where
  -- The decoded output, with the flag of its event.
  unfoldable pub decoded : EncryptedOutputWithSign → Option Utxo
  decoded out = elim (decode_output out) [
    | none ↦ none
    | some u ↦ some (record u { is_blocked = out.is_blocked })
  ]

  unfoldable pub is_unspent : Nullifiers → Utxo → Bool
  is_unspent nullifiers u = elim (get_nullifier u) [
    | none ↦ false
    | some n ↦ not (Dict.contains n nullifiers)
  ]

  unfoldable pub credit : Utxo → Option Text → Balances → Balances
  unfolding lookup insert
  credit u none res = res
  credit u (some token) res = record {
    balances = insert token (balance_or_zero (lookup token res.balances) +ℤ u.amount) res.balances;
    utxos = res.utxos ++ (u ∷ []);
  }

  -- One round of the loop of `Compute`.
  unfoldable pub count_in : Nullifiers → Option Utxo → Balances → Balances
  unfolding is_unspent credit
  count_in nullifiers none res = res
  count_in nullifiers (some u) res =
      if is_unspent nullifiers u && not u.is_blocked then credit u (token_key u) res else res

  unfoldable pub compute_from : List EncryptedOutputWithSign → Nullifiers → Balances → Balances
  unfolding decoded count_in
  compute_from [] nullifiers res = res
  compute_from (out ∷ outs) nullifiers res =
      compute_from outs nullifiers (count_in nullifiers (decoded out) res)

  -- `Compute`
  unfoldable pub compute : List EncryptedOutputWithSign → Nullifiers → Balances
  unfolding compute_from
  compute outs nullifiers = compute_from outs nullifiers (record { balances = []; utxos = [] })

  -- `DecodeOutputs`
  unfoldable pub decode_outputs : List EncryptedOutputWithSign → List Utxo
  unfolding decoded
  decode_outputs [] = []
  decode_outputs (out ∷ outs) =
      let rest = decode_outputs outs in elim (decoded out) [ none ↦ rest | some u ↦ u ∷ rest ]

  -- `filterSpentUtxos`
  unfoldable pub filter_spent_utxos : List Utxo → Nullifiers → List Utxo
  unfolding is_unspent
  filter_spent_utxos all_utxos nullifiers = select (is_unspent nullifiers) all_utxos
