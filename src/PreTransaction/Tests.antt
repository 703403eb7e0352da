-- ===== src/PreTransaction/Tests.antt =====
-- Runs of the outputs, and the theorems at them.
use hinkal_go.Prelude.{
  ◌≡◌, refl, arith, true, false, Option, none, some, List, [], ◌∷◌, Text, ok, err, text_eq,
}
use hinkal_go.Prelude.Int.{ℤ, pos, negsuc, ◌+ℤ◌}
use hinkal_go.PreTransaction.{
  Utxo, UserKeys, JubPoint, insufficient_funds, count_total_amount_in_utxos, output_utxo_processing,
  build_output_utxos, output_utxos_from, ensure_amount_changes, change_params, new_utxo, choose_h0,
  recipient_outputs, recipient_amount_at, parse_big_int, trim_left, trim_right, strip_hex,
  set_string, digits_value, digit,
}
use hinkal_go.PreTransaction.Conserves.{
  AreAmounts, output_utxo_processing-conserves, build_output_utxos-passes,
}

abbrev toy_randomization : Text → Option ℤ
toy_randomization key = some (pos 7)

abbrev toy_h0 : ℤ → Text → Option JubPoint
toy_h0 r key = some (r, pos 1)

abbrev keys : UserKeys
keys = record { shielded_private_key = some (55 ∷ []); spending_public_key = some (pos 3, pos 4) }

abbrev holding : ℤ → Utxo
holding amount = record {
  amount = amount;
  erc20_token_address = 97 ∷ [];
  mint_address = [];
  time_stamp = 49 ∷ [];
  nullifying_key = 55 ∷ [];
  spending_public_key = pos 3 ∷ pos 4 ∷ [];
  h0 = (pos 7, pos 1);
  stealth_address = [];
  encryption_key = [];
  is_blocked = false;
}

abbrev two_inputs : List Utxo
two_inputs = holding (pos 30) ∷ holding (pos 12) ∷ []

two_inputs-AreAmounts : AreAmounts two_inputs
two_inputs-AreAmounts = (omega arith, (omega arith, tt))

too_much :
    output_utxo_processing toy_randomization toy_h0
      (49 ∷ [])
      keys
      two_inputs
      (negsuc 42)
      (49 ∷ [])
      true
      []
      none
    ≡ err insufficient_funds
unfolding output_utxo_processing count_total_amount_in_utxos ◌+ℤ◌
too_much = refl

spends_forty :
    output_utxo_processing toy_randomization toy_h0
      (49 ∷ [])
      keys
      two_inputs
      (negsuc 39)
      (49 ∷ [])
      true
      []
      none
    ≡ ok (holding (pos 2) ∷ [])
unfolding output_utxo_processing count_total_amount_in_utxos change_params new_utxo choose_h0
    recipient_outputs ◌+ℤ◌
spends_forty = refl

hexadecimal : parse_big_int (32 ∷ 48 ∷ 120 ∷ 49 ∷ 70 ∷ []) ≡ some (pos 31)
unfolding parse_big_int trim_left trim_right strip_hex set_string digits_value digit
hexadecimal = refl

output_utxo_processing-conserves_example :
    count_total_amount_in_utxos (holding (pos 2) ∷ [])
    ≡ count_total_amount_in_utxos two_inputs +ℤ negsuc 39
output_utxo_processing-conserves_example =
    output_utxo_processing-conserves toy_randomization toy_h0 (49 ∷ []) keys two_inputs (negsuc 39)
      (49 ∷ []) [] (holding (pos 2) ∷ []) two_inputs-AreAmounts spends_forty

builds_one :
    build_output_utxos toy_randomization toy_h0
      (49 ∷ [])
      keys
      (two_inputs ∷ [])
      (negsuc 39 ∷ [])
      []
      []
    ≡ ok ((holding (pos 2) ∷ []) ∷ [])
unfolding build_output_utxos output_utxos_from output_utxo_processing count_total_amount_in_utxos
    change_params new_utxo choose_h0 recipient_outputs recipient_amount_at ◌+ℤ◌
builds_one = refl

build_output_utxos-passes_example :
    ensure_amount_changes (pos 97) (two_inputs ∷ []) ((holding (pos 2) ∷ []) ∷ []) (negsuc 39 ∷ [])
    ≡ true
build_output_utxos-passes_example =
    build_output_utxos-passes toy_randomization toy_h0 (49 ∷ []) (pos 97) keys (two_inputs ∷ [])
      ((holding (pos 2) ∷ []) ∷ []) (negsuc 39 ∷ []) (two_inputs-AreAmounts, tt) refl builds_one
