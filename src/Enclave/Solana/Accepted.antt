-- ===== src/Enclave/Solana/Accepted.antt =====
-- What an accepted Solana answer keeps: the notes that the caller authorised, and the amounts.
use mathlib.Core.Path.{subst}
use hinkal_go.Prelude.{
  ℕ, ◌≡◌, sym, ◌∙◌, true, false, Option, none, some, List, [], ◌∷◌, map, get_elem?, Text, text_eq,
  ◌==◌, if◌then◌else◌, ok, bind_ok, ok-injective,
}
use hinkal_go.Prelude.Sets.{is_member, IsDistinct}
use hinkal_go.Prelude.Int.{ℤ}
use hinkal_go.Enclave.{Library, big_int, traverse, strings_to_big_ints, is_zero}
use hinkal_go.Enclave.Inputs.{spend, compute_in_nullifiers}
use hinkal_go.Enclave.Outputs.{self_slot_count, compute_out_commitments}
use hinkal_go.Enclave.Amounts.{assert_amounts_conserve}
use hinkal_go.Enclave.Request.{Preimage}
use hinkal_go.Enclave.Spent.{IsSlot}
use hinkal_go.Enclave.Spent.Authorised.{compute_in_nullifiers-authorised}
use hinkal_go.Enclave.Conserved.{RowTotals, assert_amounts_conserve-totals}
use hinkal_go.Enclave.Solana.{DimData, format_mint_address}
use hinkal_go.Enclave.Solana.Check.{
  PrepareSolanaTxRequest, solana_authorised, verify_prepare_solana_tx_response,
}

-- The compressed addresses of the tokens.
abbrev pub compressed : List (ℕ × ℕ × Text) → List Text
compressed = map (λ m. m.2)

module _ (lib : Library) where
  -- The parts of an accepted answer before its hash.
  record IsChecked (payload : PrepareSolanaTxRequest) (p : Preimage) : Type 0 where
    mints : List (ℕ × ℕ × Text)
    authorised : Option (List Text)
    in_nullifiers : List (List Text)
    mints_are : traverse (format_mint_address lib) payload.mint_addresses ≡ ok mints
    authorised_is : solana_authorised lib payload ≡ ok authorised
    nullifiers_are :
        compute_in_nullifiers lib
          (compressed mints)
          p.in_amounts
          p.in_h0_ax
          p.in_h0_ay
          p.in_time_stamps
          payload.nullifying_key
          payload.spending_public_key
          authorised
        ≡ ok in_nullifiers
    conserved :
        assert_amounts_conserve
          (compressed mints)
          p.in_amounts
          p.out_amounts
          none
          payload.amount_changes
        ≡ ok tt

  verify_prepare_solana_tx_response-IsChecked :
      (payload : PrepareSolanaTxRequest) (p : Preimage) (dimensions : DimData)
      → verify_prepare_solana_tx_response lib payload p dimensions ≡ ok tt
      → IsChecked payload p
  unfolding verify_prepare_solana_tx_response
  verify_prepare_solana_tx_response-IsChecked payload p dimensions e =
      let (mints, mints_are, later1) =
        bind_ok (traverse (format_mint_address lib) payload.mint_addresses) _ e in
      let (authorised, authorised_is, later2) = bind_ok (solana_authorised lib payload) _ later1 in
      let (ns, nullifiers_are, later3) =
        bind_ok
          (compute_in_nullifiers lib (compressed mints) p.in_amounts p.in_h0_ax p.in_h0_ay
            p.in_time_stamps payload.nullifying_key payload.spending_public_key authorised)
          _ later2 in
      let (cs, commitments_are, later4) =
        bind_ok
          (compute_out_commitments lib (compressed mints) none p.out_amounts p.out_note_h0_ax
            p.out_note_h0_ay p.out_time_stamp payload.nullifying_key payload.spending_public_key
            (if payload.recipient_address == [] then [] else payload.recipient_address ∷ [])
            (elim payload.recipient_amounts [ none ↦ [] | some amounts ↦ amounts ∷ [] ]))
          _ later3 in
      let (t, conserved, later5) =
        bind_ok
          (assert_amounts_conserve (compressed mints) p.in_amounts p.out_amounts none
            payload.amount_changes)
          _ later4 in
      record {
        mints = mints;
        authorised = authorised;
        in_nullifiers = ns;
        mints_are = mints_are;
        authorised_is = authorised_is;
        nullifiers_are = nullifiers_are;
        conserved = conserved;
      }

  -- An accepted Solana answer spends no note, of a slot whose amount is not zero, but those that the
  -- caller authorised, where the caller gave distinct commitments.
  pub verify_prepare_solana_tx_response-authorised :
      (payload : PrepareSolanaTxRequest) (p : Preimage) (dimensions : DimData)
      (mints : List (ℕ × ℕ × Text)) (commitments : List Text) (own : List ℤ) (token a x y t : Text)
      (n : ℤ) (note : Text × Text)
      → verify_prepare_solana_tx_response lib payload p dimensions ≡ ok tt
      → traverse (format_mint_address lib) payload.mint_addresses ≡ ok mints
      → solana_authorised lib payload ≡ ok (some commitments)
      → IsDistinct commitments
      → strings_to_big_ints (payload.spending_public_key.0 ∷ payload.spending_public_key.1 ∷ [])
        ≡ ok own
      → IsSlot token a x y t (compressed mints) p.in_amounts p.in_h0_ax p.in_h0_ay p.in_time_stamps
      → big_int a ≡ ok n
      → is_zero n ≡ false
      → spend lib payload.nullifying_key own token n x y t ≡ ok note
      → is_member (note.0) commitments ≡ true
  verify_prepare_solana_tx_response-authorised payload p dimensions mints commitments own token a x
        y t n note e formatted given distinct key slot parsed amount made =
      let k = verify_prepare_solana_tx_response-IsChecked payload p dimensions e in
      let same : k.authorised ≡ some commitments = ok-injective (sym k.authorised_is ∙ given) in
      let tokens : k.mints ≡ mints = ok-injective (sym k.mints_are ∙ formatted) in
      let spends =
        subst
          (λ (m : List (ℕ × ℕ × Text)).
            compute_in_nullifiers lib (compressed m) p.in_amounts p.in_h0_ax p.in_h0_ay
              p.in_time_stamps payload.nullifying_key payload.spending_public_key (some commitments)
            ≡ ok k.in_nullifiers)
          tokens
          (subst
            (λ (o : Option (List Text)).
              compute_in_nullifiers lib (compressed k.mints) p.in_amounts p.in_h0_ax p.in_h0_ay
                p.in_time_stamps payload.nullifying_key payload.spending_public_key o
              ≡ ok k.in_nullifiers)
            same k.nullifiers_are) in
      compute_in_nullifiers-authorised lib payload.nullifying_key payload.spending_public_key own
        (compressed mints) commitments p.in_amounts p.in_h0_ax p.in_h0_ay p.in_time_stamps
        k.in_nullifiers token a x y t n note spends distinct key slot parsed amount made

  -- In an accepted Solana answer every token's inputs and the caller's change are what its own
  -- outputs hold.
  pub verify_prepare_solana_tx_response-totals :
      (i : ℕ) (payload : PrepareSolanaTxRequest) (p : Preimage) (dimensions : DimData)
      (mints : List (ℕ × ℕ × Text)) (token : Text) (row_in row_out : List Text) (change_text : Text)
      → verify_prepare_solana_tx_response lib payload p dimensions ≡ ok tt
      → traverse (format_mint_address lib) payload.mint_addresses ≡ ok mints
      → get_elem? (compressed mints) i ≡ some token
      → get_elem? p.in_amounts i ≡ some row_in
      → get_elem? p.out_amounts i ≡ some row_out
      → get_elem? payload.amount_changes i ≡ some change_text
      → RowTotals 1 row_in row_out change_text
  unfolding self_slot_count
  verify_prepare_solana_tx_response-totals i payload p dimensions mints token row_in row_out
        change_text e formatted =
      let k = verify_prepare_solana_tx_response-IsChecked payload p dimensions e in
      let tokens : k.mints ≡ mints = ok-injective (sym k.mints_are ∙ formatted) in
      let conserved =
        subst
          (λ (m : List (ℕ × ℕ × Text)).
            assert_amounts_conserve (compressed m) p.in_amounts p.out_amounts none
              payload.amount_changes
            ≡ ok tt)
          tokens k.conserved in
      assert_amounts_conserve-totals i (compressed mints) p.in_amounts p.out_amounts none
        payload.amount_changes token row_in row_out change_text conserved
