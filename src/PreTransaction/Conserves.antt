-- ===== src/PreTransaction/Conserves.antt =====
-- The outputs of a transaction hold what the inputs hold and the change of the amount.
use mathlib.Core.Path.{subst}
use hinkal_go.Prelude.{
  ℕ, ◌+◌, ◌≡◌, inl, inr, refl, sym, ap, ◌∙◌, arith, Bool, true, false, ◌&&◌, Option, none, List, [],
  ◌∷◌, Text, text_eq, ltb→lt, ltb→le, if◌then◌else◌, ok, ◌>>=◌, fail_if, or_err, length, bind_ok,
  fail_if_ok, ok-injective, Bool-cases, All,
}
use hinkal_go.Prelude.Int.{ℤ, pos, ◌+ℤ◌, ◌-ℤ◌, ◌≤ℤ◌, ltb_ℤ, beq_ℤ, int_laws, pos_part, neg_part}
use hinkal_go.PreTransaction.{
  UtxoParams, Utxo, UserKeys, JubPoint, count_total_amount_in_utxos, bigint_max,
  recipient_amount_at, choose_h0, new_utxo, change_params, recipient_outputs,
  output_utxo_processing, output_utxos_from, build_output_utxos, calc_amount_change,
  calc_amount_changes, are_equal_changes, ensure_amount_changes,
}

-- No amount is negative.
abbrev pub AreAmounts : List Utxo → Type 0
AreAmounts = All (λ u. pos 0 ≤ℤ u.amount)

total_positive : (us : List Utxo) → AreAmounts us → pos 0 ≤ℤ count_total_amount_in_utxos us
unfolding count_total_amount_in_utxos
total_positive [] h = omega arith
total_positive (u ∷ us) (h, hs) = let rest = total_positive us hs in omega int_laws

refused : Path Bool true false → ⊥
refused e = cc

-- A total that is not refused is not cut at zero.
uncut :
    (total change : ℤ)
    → pos 0 ≤ℤ total
    → (true && ltb_ℤ change (pos 0) && ltb_ℤ (total +ℤ change) (pos 0)) ≡ false
    → bigint_max (total +ℤ change) (pos 0) ≡ total +ℤ change
uncut total change h e = elim (Bool-cases (ltb_ℤ (total +ℤ change) (pos 0))) [
  | inr whole ↦ rw whole refl
  | inl below ↦ elim (Bool-cases (ltb_ℤ change (pos 0))) [
    | inl out ↦ absurd (refused (rw (out, below) at e))
    | inr into ↦
        let up =
          ltb→le (pos_part change + neg_part (pos 0)) (pos_part (pos 0) + neg_part change) into in
        let down =
          ltb→lt (pos_part (total +ℤ change) + neg_part (pos 0))
            (pos_part (pos 0) + neg_part (total +ℤ change)) below in
        absurd (omega int_laws)
  ]
]

beq_ℤ_refl : (a : ℤ) → beq_ℤ a a ≡ true
beq_ℤ_refl a = ground arith

alone : (a : ℤ) → a +ℤ pos 0 ≡ a
alone a = omega int_laws

-- The change that is computed of totals that differ by it.
calc_amount_change-lem :
    (field_p change : ℤ) (inputs outs : List Utxo)
    → count_total_amount_in_utxos outs ≡ count_total_amount_in_utxos inputs +ℤ change
    → calc_amount_change field_p inputs outs false
      ≡ (if ltb_ℤ change (pos 0) then field_p +ℤ change else change)
unfolding calc_amount_change
calc_amount_change-lem field_p change inputs outs e =
    let a = count_total_amount_in_utxos inputs in
    let diff : (a +ℤ change) -ℤ a ≡ change = omega int_laws in
    rw (e, diff, calc_amount_change) (ground arith)

module _ (find_randomization : Text → Option ℤ) (find_h0 : ℤ → Text → Option JubPoint)
    (current_time : Text) where
  new_utxo-amount :
      (p : UtxoParams) (u : Utxo)
      → new_utxo find_randomization find_h0 current_time p ≡ ok u
      → u.amount ≡ p.amount
  unfolding new_utxo
  new_utxo-amount p u e =
      let (h0, chosen, made) = bind_ok (choose_h0 find_randomization find_h0 current_time p) _ e in
      ap (λ (v : Utxo). v.amount) (sym (ok-injective made))

  change_params-amount :
      (keys : UserKeys) (first : Utxo) (amount : ℤ) (time_stamp : Text) (p : UtxoParams)
      → change_params find_randomization find_h0 current_time keys first amount time_stamp ≡ ok p
      → p.amount ≡ amount
  unfolding change_params
  change_params-amount keys first amount time_stamp p e =
      let (shielded, have, later) = bind_ok (or_err keys.shielded_private_key _) _ e in
      let (spending, too, made) = bind_ok (or_err keys.spending_public_key _) _ later in
      ap (λ (q : UtxoParams). q.amount) (sym (ok-injective made))

  -- With revertIfNegative, no recipient amount and inputs that are not negative, the outputs that
  -- OutputUtxoProcessing returns for a token hold the total of its inputs and the change.
  pub output_utxo_processing-conserves :
      (keys : UserKeys) (inputs : List Utxo) (change : ℤ) (time_stamp recipient : Text)
      (outs : List Utxo)
      → AreAmounts inputs
      → output_utxo_processing find_randomization find_h0 current_time keys inputs change time_stamp
          true recipient none
        ≡ ok outs
      → count_total_amount_in_utxos outs ≡ count_total_amount_in_utxos inputs +ℤ change
  unfolding output_utxo_processing recipient_outputs count_total_amount_in_utxos
  output_utxo_processing-conserves keys [] change time_stamp recipient outs h e = cc
  output_utxo_processing-conserves keys (first ∷ inputs) change time_stamp recipient outs h e =
      let total = count_total_amount_in_utxos (first ∷ inputs) in
      let (passed, guard, later) =
        bind_ok (fail_if (true && ltb_ℤ change (pos 0) && ltb_ℤ (total +ℤ change) (pos 0)) _) _ e in
      let amount_left = bigint_max (total +ℤ change) (pos 0) in
      let start =
        change_params find_randomization find_h0 current_time keys first amount_left time_stamp in
      let (own, created, made) =
        bind_ok (start >>= new_utxo find_randomization find_h0 current_time) _ later in
      let (p, params, new) =
        bind_ok start (new_utxo find_randomization find_h0 current_time) created in
      let whole = uncut total change (total_positive (first ∷ inputs) h) (fail_if_ok _ _ guard) in
      let amount =
        new_utxo-amount p own new
        ∙ change_params-amount keys first (bigint_max (total +ℤ change) (pos 0)) time_stamp p
            params in
      ap count_total_amount_in_utxos (sym (ok-injective made)) ∙ alone own.amount ∙ amount ∙ whole

  -- Without a recipient the outputs of every token pass the check of the amounts.
  outputs_pass :
      (field_p : ℤ) (keys : UserKeys) (i : ℕ) (inputs outs : List (List Utxo)) (changes : List ℤ)
      → All AreAmounts inputs
      → length changes ≡ length inputs
      → output_utxos_from find_randomization find_h0 current_time keys i inputs changes [] []
        ≡ ok outs
      → ensure_amount_changes field_p inputs outs changes ≡ true
  unfolding output_utxos_from ensure_amount_changes recipient_amount_at calc_amount_changes
      are_equal_changes
  outputs_pass field_p keys i [] outs [] h same e = refl
  outputs_pass field_p keys i [] outs (change ∷ changes) h same e = absurd (omega arith)
  outputs_pass field_p keys i (ins ∷ inputs) outs [] h same e = absurd (omega arith)
  outputs_pass field_p keys i (ins ∷ inputs) outs (change ∷ changes) (h, hs) same e =
      let (first, run, later) =
        bind_ok
          (output_utxo_processing find_randomization find_h0 current_time keys ins change
            current_time true [] none)
          _ e in
      let (others, rest, made) =
        bind_ok
          (output_utxos_from find_randomization find_h0 current_time keys (i + 1) inputs changes []
            [])
          _ later in
      let total = output_utxo_processing-conserves keys ins change current_time [] first h run in
      let go = outputs_pass field_p keys (i + 1) inputs others changes hs (omega arith) rest in
      subst
        (λ (os : List (List Utxo)).
          ensure_amount_changes field_p (ins ∷ inputs) os (change ∷ changes) ≡ true)
        (ok-injective made)
        (rw
          (
            calc_amount_change-lem field_p change ins first total,
            beq_ℤ_refl (if ltb_ℤ change (pos 0) then field_p +ℤ change else change),
          )
          go)

  -- Where no input amount is negative, there is a change for each token and no recipient, the
  -- outputs that BuildOutputUtxos returns pass the check of EnsureAmountChanges.
  pub build_output_utxos-passes :
      (field_p : ℤ) (keys : UserKeys) (inputs outs : List (List Utxo)) (changes : List ℤ)
      → All AreAmounts inputs
      → length changes ≡ length inputs
      → build_output_utxos find_randomization find_h0 current_time keys inputs changes [] []
        ≡ ok outs
      → ensure_amount_changes field_p inputs outs changes ≡ true
  unfolding build_output_utxos
  build_output_utxos-passes field_p keys = outputs_pass field_p keys 0
