-- ===== src/Enclave/Accepted/Keeps.antt =====
-- What an accepted EVM or Tron answer keeps: the notes that the caller authorised, and the amounts.
use mathlib.Core.Path.{subst}
use hinkal_go.Prelude.{
  ℕ, ◌≡◌, sym, ◌∙◌, true, false, Option, some, List, [], ◌∷◌, get_elem?, Text, text_eq, ok,
  ok-injective,
}
use hinkal_go.Prelude.Sets.{is_member, IsDistinct}
use hinkal_go.Prelude.Int.{ℤ}
use hinkal_go.Enclave.{Library, big_int, strings_to_big_ints, is_zero}
use hinkal_go.Enclave.Inputs.{spend, compute_in_nullifiers}
use hinkal_go.Enclave.Outputs.{self_slot_count}
use hinkal_go.Enclave.Amounts.{compute_amount_changes_signed}
use hinkal_go.Enclave.Request.{PrepareTxRequest, PrepareTxResponse}
use hinkal_go.Enclave.Response.{authorised_commitments, verify_prepare_tx_response}
use hinkal_go.Enclave.Spent.{IsSlot}
use hinkal_go.Enclave.Spent.Authorised.{compute_in_nullifiers-authorised}
use hinkal_go.Enclave.Conserved.{TokenBalance, assert_amounts_conserve-balanced}
use hinkal_go.Enclave.Accepted.{verify_prepare_tx_response_gives}

module _ (lib : Library) where
  -- An accepted answer spends no note, of a slot whose amount is not zero, but those that the caller
  -- authorised, where the caller gave distinct commitments.
  pub verify_prepare_tx_response-authorised :
      (chain_id : ℕ) (payload : PrepareTxRequest) (response : PrepareTxResponse)
      (commitments : List Text) (own : List ℤ) (token a x y t : Text) (n : ℤ) (note : Text × Text)
      → verify_prepare_tx_response lib chain_id payload response ≡ ok tt
      → authorised_commitments lib payload ≡ ok (some commitments)
      → IsDistinct commitments
      → strings_to_big_ints (payload.spending_public_key.0 ∷ payload.spending_public_key.1 ∷ [])
        ≡ ok own
      → IsSlot token a x y t payload.erc20_addresses response.preimage.in_amounts
          response.preimage.in_h0_ax response.preimage.in_h0_ay response.preimage.in_time_stamps
      → big_int a ≡ ok n
      → is_zero n ≡ false
      → spend lib payload.nullifying_key own token n x y t ≡ ok note
      → is_member (note.0) commitments ≡ true
  verify_prepare_tx_response-authorised chain_id payload response commitments own token a x y t n
        note e given distinct key slot parsed amount made =
      let p = response.preimage in
      let (hash, accepted, signed) =
        verify_prepare_tx_response_gives lib chain_id payload response e in
      let same : accepted.authorised ≡ some commitments =
        ok-injective (sym accepted.authorised_is ∙ given) in
      let spends =
        subst
          (λ (o : Option (List Text)).
            compute_in_nullifiers lib payload.erc20_addresses p.in_amounts p.in_h0_ax p.in_h0_ay
              p.in_time_stamps payload.nullifying_key payload.spending_public_key o
            ≡ ok accepted.in_nullifiers)
          same accepted.nullifiers_are in
      compute_in_nullifiers-authorised lib payload.nullifying_key payload.spending_public_key own
        payload.erc20_addresses commitments p.in_amounts p.in_h0_ax p.in_h0_ay p.in_time_stamps
        accepted.in_nullifiers token a x y t n note spends distinct key slot parsed amount made

  -- In an accepted answer, every token's inputs and its signed change are together what its own
  -- outputs hold and what the caller's recipients get.
  pub verify_prepare_tx_response-balanced :
      (chain_id i : ℕ) (payload : PrepareTxRequest) (response : PrepareTxResponse) (signed : List ℤ)
      (token : Text) (row_in row_out : List Text) (change_text : Text)
      → verify_prepare_tx_response lib chain_id payload response ≡ ok tt
      → compute_amount_changes_signed payload.erc20_addresses payload.amount_changes
          payload.recipient_amounts
        ≡ ok signed
      → get_elem? payload.erc20_addresses i ≡ some token
      → get_elem? response.preimage.in_amounts i ≡ some row_in
      → get_elem? response.preimage.out_amounts i ≡ some row_out
      → get_elem? payload.amount_changes i ≡ some change_text
      → TokenBalance
          (self_slot_count payload.self_output_amounts)
          i
          row_in
          row_out
          payload.recipient_amounts
          (get_elem? signed i)
  verify_prepare_tx_response-balanced chain_id i payload response signed token row_in row_out
        change_text e =
      assert_amounts_conserve-balanced i payload.erc20_addresses response.preimage.in_amounts
        response.preimage.out_amounts payload.self_output_amounts payload.amount_changes
        payload.recipient_amounts signed token row_in row_out change_text
        ((verify_prepare_tx_response_gives lib chain_id payload response e).1).conserved
