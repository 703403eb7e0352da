-- ===== src/PreTransaction.antt =====
-- The outputs of a transaction: internal/functions/pre-transaction/output_utxo_processing.go and
-- ensure_amount_changes.go, `CalcAmountChanges` of internal/functions/snarkjs/common.go, and
-- `NewUtxo` of internal/data-structures/utxo/utxo.go.
-- Parameters are what the curve's library and the random source give: `find_randomization` draws a
-- number for a nullifying key, and `find_h0` is the point of a number and a key.
pub mod Conserves
mod Tests
use hinkal_go.Prelude.{
  ℕ, zero, suc, ◌+◌, ◌-◌, ◌*◌, Bool, true, false, ◌&&◌, ◌||◌, not, Option, none, some, List, [],
  ◌∷◌, length, get_elem?, Text, text_eq, nat_eq, ltb, leb, ◌==◌, if◌then◌else◌, Result, ok, err,
  ◌>>=◌, ◌>>◌, fail_if, or_err,
}
use hinkal_go.Prelude.Int.{ℤ, pos, ◌+ℤ◌, ◌-ℤ◌, neg_ℤ, ltb_ℤ, leb_ℤ, beq_ℤ}

pub data PreTransactionError : Type 0 where
  insufficient_funds : PreTransactionError
  no_keys : PreTransactionError
  malformed_recipient : PreTransactionError
  not_a_number : PreTransactionError
  no_h0 : PreTransactionError
  no_inputs : PreTransactionError

abbrev pub JubPoint : Type 0
JubPoint = ℤ × ℤ

-- `types.UtxoParams`, less the cached commitment and nullifier.
pub record UtxoParams : Type 0 where
  pub amount : ℤ
  pub erc20_token_address : Text
  pub mint_address : Text
  pub time_stamp : Text
  pub nullifying_key : Text
  pub spending_public_key : List ℤ
  pub randomization : Option ℤ
  pub h0 : Option JubPoint
  pub stealth_address : Text
  pub encryption_key : Text
  pub is_blocked : Bool

pub record Utxo : Type 0 where
  pub amount : ℤ
  pub erc20_token_address : Text
  pub mint_address : Text
  pub time_stamp : Text
  pub nullifying_key : Text
  pub spending_public_key : List ℤ
  pub h0 : JubPoint
  pub stealth_address : Text
  pub encryption_key : Text
  pub is_blocked : Bool

-- `userKeys`: what the two methods return, or their error.
pub record UserKeys : Type 0 where
  pub shielded_private_key : Option Text
  pub spending_public_key : Option JubPoint

-- `strings.Split(s, ",")`
unfoldable pub split_commas : Text → List Text
split_commas [] = [] ∷ []
split_commas (c ∷ s) = elim (split_commas s) [
  | [] ↦ (c ∷ []) ∷ []
  | part ∷ parts ↦ if c == 44 then [] ∷ part ∷ parts else (c ∷ part) ∷ parts
]

-- `strings.TrimSpace`, of ASCII text.
abbrev pub is_space : ℕ → Bool
is_space c = (leb 9 c && leb c 13) || (c == 32)

unfoldable pub trim_left : Text → Text
trim_left [] = []
trim_left (c ∷ s) = let rest = trim_left s in if is_space c then rest else c ∷ s

unfoldable pub trim_right : Text → Text
trim_right [] = []
trim_right (c ∷ s) =
    let rest = trim_right s in if (length rest == 0) && is_space c then [] else c ∷ rest

-- A digit of base 10 or 16.
unfoldable pub digit : ℕ → Option ℕ
digit c =
    if leb 48 c && leb c 57
    then some (c - 48)
    else if leb 97 c && leb c 102
    then some (c - 87)
    else if leb 65 c && leb c 70
    then some (c - 55)
    else none

unfoldable pub digits_value : ℕ → ℕ → Text → Option ℕ
unfolding digit
digits_value base acc [] = some acc
digits_value base acc (c ∷ s) = elim (digit c) [
  | none ↦ none
  | some d ↦ let rest = digits_value base (acc * base + d) s in if ltb d base then rest else none
]

abbrev pub signed : (ℕ → ℤ) → Option ℕ → Option ℤ
signed f none = none
signed f (some n) = some (f n)

-- `n.SetString(s, base)` for the bases 10 and 16.
unfoldable pub set_string : ℕ → Text → Option ℤ
unfolding digits_value
set_string base [] = none
set_string base (c ∷ s) =
    if (c == 43) && ltb 0 (length s)
    then signed pos (digits_value base 0 s)
    else if (c == 45) && ltb 0 (length s)
    then signed (λ n. neg_ℤ (pos n)) (digits_value base 0 s)
    else signed pos (digits_value base 0 (c ∷ s))

-- Without the prefix "0x" or "0X", where there is one.
unfoldable pub strip_hex : Text → Option Text
strip_hex [] = none
strip_hex (a ∷ []) = none
strip_hex (a ∷ b ∷ s) = if (a == 48) && ((b == 120) || (b == 88)) then some s else none

-- `ParseBigInt` of a text without spaces around it.
unfoldable pub parse_trimmed : Text → Option ℤ
unfolding strip_hex set_string
parse_trimmed s = elim (strip_hex s) [
  | none ↦ set_string 10 s
  | some hex ↦ elim (set_string 16 hex) [ none ↦ set_string 10 s | some n ↦ some n ]
]

-- `ParseBigInt`
unfoldable pub parse_big_int : Text → Option ℤ
unfolding trim_left trim_right parse_trimmed
parse_big_int text = parse_trimmed (trim_right (trim_left text))

-- `countTotalAmountInUtxos`
unfoldable pub count_total_amount_in_utxos : List Utxo → ℤ
count_total_amount_in_utxos [] = pos 0
count_total_amount_in_utxos (u ∷ utxos) = u.amount +ℤ count_total_amount_in_utxos utxos

-- `BigintMax` of two numbers.
abbrev pub bigint_max : ℤ → ℤ → ℤ
bigint_max a b = if ltb_ℤ a b then b else a

-- `recipientAmountAt`; a nil pointer is `none`.
unfoldable pub recipient_amount_at : Text → List (Option ℤ) → ℕ → Option ℤ
recipient_amount_at recipient amounts index =
    if recipient == [] then none else elim (get_elem? amounts index) [
      | none ↦ some (pos 0)
      | some amount ↦ elim amount [ none ↦ some (pos 0) | some a ↦ some a ]
    ]

module _ (find_randomization : Text → Option ℤ) (find_h0 : ℤ → Text → Option JubPoint)
    (current_time : Text) where
  -- The point of `NewUtxo`.
  unfoldable pub choose_h0 : UtxoParams → Result PreTransactionError JubPoint
  choose_h0 p = elim p.h0 [
    | some h0 ↦ ok h0
    | none ↦ elim p.randomization [
      | some r ↦ or_err (find_h0 r p.nullifying_key) no_h0
      | none ↦
          if p.nullifying_key == []
          then err no_h0
          else or_err (find_randomization p.nullifying_key) no_h0 >>= λ r.
              or_err (find_h0 r p.nullifying_key) no_h0
    ]
  ]

  -- `NewUtxo`
  unfoldable pub new_utxo : UtxoParams → Result PreTransactionError Utxo
  unfolding choose_h0
  new_utxo p = choose_h0 p >>= λ h0. ok (record {
    amount = p.amount;
    erc20_token_address = p.erc20_token_address;
    mint_address = p.mint_address;
    time_stamp = if p.time_stamp == [] then current_time else p.time_stamp;
    nullifying_key = p.nullifying_key;
    spending_public_key = p.spending_public_key;
    h0 = h0;
    stealth_address = p.stealth_address;
    encryption_key = p.encryption_key;
    is_blocked = p.is_blocked;
  })

  -- The own output of `OutputUtxoProcessing`, of the change.
  unfoldable pub change_params : UserKeys → Utxo → ℤ → Text → Result PreTransactionError UtxoParams
  change_params keys first amount time_stamp =
      or_err keys.shielded_private_key no_keys >>= λ shielded.
      or_err keys.spending_public_key no_keys >>= λ spending. ok (record {
        amount = amount;
        erc20_token_address = first.erc20_token_address;
        mint_address = first.mint_address;
        time_stamp = time_stamp;
        nullifying_key = shielded;
        spending_public_key = spending.0 ∷ spending.1 ∷ [];
        randomization = none;
        h0 = none;
        stealth_address = [];
        encryption_key = [];
        is_blocked = false;
      })

  -- The recipient's output, of the parts of the address.
  unfoldable pub recipient_params : Text → Utxo → ℤ → Text → Result PreTransactionError UtxoParams
  unfolding split_commas parse_big_int
  recipient_params recipient first amount time_stamp = elim (split_commas recipient) [
    | stealth ∷ h00 ∷ h01 ∷ _ ∷ _ ∷ key ∷ _ ↦ or_err (parse_big_int h00) not_a_number >>= λ x.
        or_err (parse_big_int h01) not_a_number >>= λ y. ok (record {
          amount = amount;
          erc20_token_address = first.erc20_token_address;
          mint_address = first.mint_address;
          time_stamp = time_stamp;
          nullifying_key = [];
          spending_public_key = [];
          randomization = none;
          h0 = some (x, y);
          stealth_address = stealth;
          encryption_key = key;
          is_blocked = false;
        })
    | _ ↦ err malformed_recipient
  ]

  -- The recipient's outputs: one, or none without a recipient or an amount.
  unfoldable pub recipient_outputs :
      Text → Utxo → Option ℤ → Text → Result PreTransactionError (List Utxo)
  unfolding recipient_params new_utxo
  recipient_outputs recipient first none time_stamp = ok []
  recipient_outputs recipient first (some amount) time_stamp =
      if recipient == []
      then ok []
      else recipient_params recipient first amount time_stamp >>= new_utxo >>= λ u. ok (u ∷ [])

  -- `OutputUtxoProcessing`; without an input `inputUtxos[0]` panics.
  unfoldable pub output_utxo_processing :
      UserKeys
      → List Utxo
      → ℤ
      → Text
      → Bool
      → Text
      → Option ℤ
      → Result PreTransactionError (List Utxo)
  unfolding count_total_amount_in_utxos change_params new_utxo recipient_outputs
  output_utxo_processing keys [] change time_stamp revert_if_negative recipient amount =
      err no_inputs
  output_utxo_processing keys (first ∷ inputs) change time_stamp revert_if_negative recipient
        amount =
      let total = count_total_amount_in_utxos (first ∷ inputs) in
      fail_if (revert_if_negative && ltb_ℤ change (pos 0) && ltb_ℤ (total +ℤ change) (pos 0))
        insufficient_funds
      >> (change_params keys first (bigint_max (total +ℤ change) (pos 0)) time_stamp
          >>= new_utxo
          >>= λ own.
              recipient_outputs recipient first amount time_stamp >>= λ others. ok (own ∷ others))

  -- The loop of `BuildOutputUtxos` from an index on; the callers give a change for every token.
  unfoldable pub output_utxos_from :
      UserKeys
      → ℕ
      → List (List Utxo)
      → List ℤ
      → Text
      → List (Option ℤ)
      → Result PreTransactionError (List (List Utxo))
  unfolding output_utxo_processing recipient_amount_at
  output_utxos_from keys i [] changes recipient amounts = ok []
  output_utxos_from keys i (inputs ∷ rest) [] recipient amounts = err no_inputs
  output_utxos_from keys i (inputs ∷ rest) (change ∷ changes) recipient amounts =
      output_utxo_processing keys inputs change current_time true recipient
        (recipient_amount_at recipient amounts i)
      >>= λ outs. output_utxos_from keys (i + 1) rest changes recipient amounts >>= λ others.
          ok (outs ∷ others)

  unfoldable pub build_output_utxos :
      UserKeys
      → List (List Utxo)
      → List ℤ
      → Text
      → List (Option ℤ)
      → Result PreTransactionError (List (List Utxo))
  unfolding output_utxos_from
  build_output_utxos keys = output_utxos_from keys 0

-- `field_p` is the order of the field, `crypto.FieldP` and `circomP`, which the field's library gives.
module _ (field_p : ℤ) where
  -- One round of `CalcAmountChanges`.
  unfoldable pub calc_amount_change : List Utxo → List Utxo → Bool → ℤ
  unfolding count_total_amount_in_utxos
  calc_amount_change inputs outputs for_circom_data =
      let diff = count_total_amount_in_utxos outputs -ℤ count_total_amount_in_utxos inputs in
      if ltb_ℤ diff (pos 0) && not for_circom_data then field_p +ℤ diff else diff

  -- `CalcAmountChanges`; a token without outputs has the total zero.
  unfoldable pub calc_amount_changes : List (List Utxo) → List (List Utxo) → Bool → List ℤ
  unfolding calc_amount_change
  calc_amount_changes [] outputs for_circom_data = []
  calc_amount_changes (ins ∷ inputs) [] for_circom_data =
      calc_amount_change ins [] for_circom_data ∷ calc_amount_changes inputs [] for_circom_data
  calc_amount_changes (ins ∷ inputs) (outs ∷ outputs) for_circom_data =
      calc_amount_change ins outs for_circom_data
      ∷ calc_amount_changes inputs outputs for_circom_data

  -- The comparison of `EnsureAmountChanges`, the lengths included.
  unfoldable pub are_equal_changes : List ℤ → List ℤ → Bool
  are_equal_changes [] [] = true
  are_equal_changes (d ∷ ds) (amount ∷ amounts) =
      beq_ℤ d (if ltb_ℤ amount (pos 0) then field_p +ℤ amount else amount)
      && are_equal_changes ds amounts
  are_equal_changes [] (_ ∷ _) = false
  are_equal_changes (_ ∷ _) [] = false

  -- `EnsureAmountChanges`: true when there is no error.
  unfoldable pub ensure_amount_changes : List (List Utxo) → List (List Utxo) → List ℤ → Bool
  unfolding calc_amount_changes are_equal_changes
  ensure_amount_changes inputs outputs changes =
      are_equal_changes (calc_amount_changes inputs outputs false) changes
