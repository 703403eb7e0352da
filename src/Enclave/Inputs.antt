-- ===== src/Enclave/Inputs.antt =====
-- The notes that a transaction spends: `verifyCollectSpeculativeInputCommitments` and
-- `verifyComputeInNullifiers` of internal/functions/enclave/construct_tx_enclave_verify.go.
use hinkal_go.Prelude.{
  ℕ, Bool, false, not, ◌&&◌, ◌||◌, true, Option, none, some, List, [], ◌∷◌, length, Text, text_eq,
  nat_eq, ◌==◌, if◌then◌else◌, Result, ok, err, ◌>>=◌, fail_if, ◌>>◌,
}
use hinkal_go.Prelude.Sets.{is_member, add_member}
use hinkal_go.Prelude.Int.{ℤ}
use hinkal_go.Enclave.{
  EnclaveError, out_of_range, arrays_mismatch, rows_mismatch, different_notes, Library, big_int,
  traverse, strings_to_big_ints, is_zero, zero_text, flatten,
}
use hinkal_go.Enclave.Notes.{build_note, get_commitment, get_nullifier, own_params, others_params}

-- `types.SpeculativeUtxo`
pub record SpeculativeUtxo : Type 0 where
  pub amount : Text
  pub erc20_token_address : Text
  pub time_stamp : Text
  pub stealth_address : Text
  pub h0 : Text × Text

-- Some of three lists does not have the length.
abbrev pub are_lengths_different {ℓ} : {A : Type ℓ} → ℕ → List A → List A → List A → Bool
are_lengths_different n xs ys zs =
    not (length xs == n) || not (length ys == n) || not (length zs == n)

module _ (lib : Library) where
  -- A note of the speculative inputs: no commitment where the amount is zero.
  unfoldable pub speculative_commitment : SpeculativeUtxo → Result EnclaveError (List Text)
  speculative_commitment u = big_int u.amount >>= λ amount.
      if is_zero amount
      then ok []
      else big_int (u.h0.0) >>= λ h0x. big_int (u.h0.1) >>= λ h0y.
          build_note lib
            (others_params u.erc20_token_address amount u.stealth_address h0x h0y u.time_stamp)
          >>= λ note. get_commitment lib note >>= λ commitment. ok (commitment ∷ [])

  -- `verifyCollectSpeculativeInputCommitments`; a nil pointer and a nil slice are `none`.
  unfoldable pub collect_speculative_input_commitments :
      Option (List (List SpeculativeUtxo)) → Result EnclaveError (Option (List Text))
  unfolding traverse speculative_commitment
  collect_speculative_input_commitments none = ok none
  collect_speculative_input_commitments (some rows) =
      traverse speculative_commitment (flatten rows) >>= λ commitments.
      ok (some (flatten commitments))

  module _ (nullifying_key : Text) (spending_public_key : List ℤ) where
    -- The note of a slot whose amount is not zero.
    unfoldable pub spend : Text → ℤ → Text → Text → Text → Result EnclaveError (Text × Text)
    spend token amount x y time_stamp = big_int x >>= λ h0x. big_int y >>= λ h0y.
        build_note lib
          (own_params token amount nullifying_key spending_public_key h0x h0y time_stamp)
        >>= λ note. get_commitment lib note >>= λ commitment.
            get_nullifier lib note >>= λ nullifier. ok (commitment, nullifier)

    -- A slot: the nullifier, and the commitments spent so far.
    unfoldable pub in_slot :
        Text → Text → Text → Text → Text → List Text → Result EnclaveError (Text × List Text)
    unfolding spend
    in_slot token amount x y time_stamp spent = big_int amount >>= λ a.
        if is_zero a
        then ok (zero_text, spent)
        else spend token a x y time_stamp >>= λ note. ok (note.1, add_member (note.0) spent)

    -- The slots of a token.
    unfoldable pub in_row :
        Text
        → List Text
        → List Text
        → List Text
        → List Text
        → List Text
        → Result EnclaveError (List Text × List Text)
    unfolding in_slot
    in_row token [] xs ys time_stamps spent = ok ([], spent)
    in_row token (a ∷ amounts) (x ∷ xs) (y ∷ ys) (t ∷ time_stamps) spent =
        in_slot token a x y t spent >>= λ slot.
        in_row token amounts xs ys time_stamps (slot.1) >>= λ rest. ok (slot.0 ∷ rest.0, rest.1)
    in_row token (_ ∷ _) [] ys time_stamps spent = err out_of_range
    in_row token (_ ∷ _) (_ ∷ _) [] time_stamps spent = err out_of_range
    in_row token (_ ∷ _) (_ ∷ _) (_ ∷ _) [] spent = err out_of_range

    -- The tokens in turn, each with the check of its rows' lengths.
    unfoldable pub in_rows :
        List Text
        → List (List Text)
        → List (List Text)
        → List (List Text)
        → List (List Text)
        → List Text
        → Result EnclaveError (List (List Text) × List Text)
    unfolding in_row
    in_rows [] amounts xs ys time_stamps spent = ok ([], spent)
    in_rows (token ∷ tokens) (a ∷ amounts) (x ∷ xs) (y ∷ ys) (t ∷ time_stamps) spent =
        fail_if (are_lengths_different (length a) x y t) rows_mismatch
        >> (in_row token a x y t spent >>= λ row.
            in_rows tokens amounts xs ys time_stamps (row.1) >>= λ rest.
            ok (row.0 ∷ rest.0, rest.1))
    in_rows (_ ∷ _) [] xs ys time_stamps spent = err out_of_range
    in_rows (_ ∷ _) (_ ∷ _) [] ys time_stamps spent = err out_of_range
    in_rows (_ ∷ _) (_ ∷ _) (_ ∷ _) [] time_stamps spent = err out_of_range
    in_rows (_ ∷ _) (_ ∷ _) (_ ∷ _) (_ ∷ _) [] spent = err out_of_range

-- Every commitment of the list is in the set.
abbrev pub all_members : List Text → List Text → Bool
all_members [] spent = true
all_members (c ∷ commitments) spent = is_member c spent && all_members commitments spent

-- The comparison with the authorised commitments, where there are any.
unfoldable pub is_different : Option (List Text) → List Text → Bool
is_different none spent = false
is_different (some authorised) spent =
    not (length spent == length authorised) || not (all_members authorised spent)

-- `verifyComputeInNullifiers`
unfoldable pub compute_in_nullifiers :
    Library
    → List Text
    → List (List Text)
    → List (List Text)
    → List (List Text)
    → List (List Text)
    → Text
    → Text × Text
    → Option (List Text)
    → Result EnclaveError (List (List Text))
unfolding in_rows is_different strings_to_big_ints
compute_in_nullifiers lib tokens amounts xs ys time_stamps nullifying_key spending_public_key
      authorised =
    fail_if
      (not (length amounts == length tokens)
        || are_lengths_different (length tokens) xs ys time_stamps)
      arrays_mismatch
    >> (strings_to_big_ints (spending_public_key.0 ∷ spending_public_key.1 ∷ []) >>= λ own.
        in_rows lib nullifying_key own tokens amounts xs ys time_stamps [] >>= λ rows.
        fail_if (is_different authorised (rows.1)) different_notes >> ok (rows.0))
