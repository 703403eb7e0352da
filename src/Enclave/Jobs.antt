-- ===== src/Enclave/Jobs.antt =====
-- What an accepted job that withdraws stuck notes satisfies.
pub mod Distinct
pub mod Withdrawal
use mathlib.Core.Path.{subst}
use hinkal_go.Prelude.{
  ℕ, zero, suc, ◌+◌, ◌≡◌, refl, sym, ap, ◌∙◌, arith, Bool, true, false, not, ◌||◌, Option, none,
  some, List, [], ◌∷◌, ◌++◌, length, take, select, get_elem?, Text, text_eq, text_beq_iff, ◌==◌,
  Result, ok, err, ◌>>=◌, ◌>>◌, fail_if, or_err, bind_ok, some-injective, guard_ok, fail_if_ok,
  ok-injective, Bool-cases, All, inl, inr,
}
use hinkal_go.Prelude.Sets.{is_member, IsDistinct}
use hinkal_go.Prelude.Int.{ℤ, pos, ◌+ℤ◌, neg_ℤ, leb_ℤ, ltb_ℤ, int_laws, pos_part, neg_part}
use hinkal_go.Numbers.{int_text}
use hinkal_go.Enclave.{
  EnclaveError, out_of_range, not_a_number, repeated_note, fee_not_covered, Library, big_int, at,
  zero_text,
}
use hinkal_go.Enclave.Compare.{big_int-int_text}
use hinkal_go.Enclave.Inputs.{compute_in_nullifiers}
use hinkal_go.Enclave.Outputs.{self_slot_count, compute_out_commitments}
use hinkal_go.Enclave.Amounts.{add_amounts, assert_amounts_conserve, stuck_withdraw_job_covers_fee}
use hinkal_go.Enclave.Request.{Preimage}
use hinkal_go.Enclave.Conserved.{assert_amounts_conserve-length, assert_amounts_conserve-totals}
use hinkal_go.Enclave.Stuck.{
  StuckWithdraw, no_repeated_notes, no_repeated_stuck_notes, assert_job_hash_matches,
  verify_stuck_withdraw_job, verify_jobs,
}

module _ (lib : Library) (w : StuckWithdraw) where
  abbrev pub job_nullifiers : Preimage → Result EnclaveError (List (List Text))
  job_nullifiers job =
      compute_in_nullifiers lib (w.erc20_token_address ∷ []) job.in_amounts job.in_h0_ax
        job.in_h0_ay job.in_time_stamps w.nullifying_key w.spending_public_key none

  -- What an accepted job satisfies before its hash is compared.
  pub record JobFacts (job : Preimage) (before after : List Text) : Type 0 where
    pub rows : List (List Text)
    pub row : List Text
    pub row_in : List Text
    pub total : ℤ
    pub rows_are : job_nullifiers job ≡ ok rows
    pub row_is : at rows 0 ≡ ok row
    pub adds : no_repeated_notes row before ≡ ok after
    pub row_in_is : at job.in_amounts 0 ≡ ok row_in
    pub total_is : add_amounts (pos 0) row_in ≡ ok total
    pub covers : leb_ℤ total w.fee_structure.flat_fee ≡ false
    pub conserved :
        assert_amounts_conserve
          (w.erc20_token_address ∷ [])
          job.in_amounts
          job.out_amounts
          none
          (int_text (neg_ℤ total) ∷ [])
        ≡ ok tt

  pub verify_stuck_withdraw_job-facts :
      (job : Preimage) (before after : List Text)
      → verify_stuck_withdraw_job lib w job before ≡ ok after
      → JobFacts job before after
  unfolding verify_stuck_withdraw_job no_repeated_stuck_notes
  verify_stuck_withdraw_job-facts job before after e =
      let (rows, rows_are, later1) = bind_ok (job_nullifiers job) _ e in
      let (added, repeated, later2) =
        bind_ok (at rows 0 >>= λ r. no_repeated_notes r before) _ later1 in
      let (row, row_is, adds) = bind_ok (at rows 0) _ repeated in
      let (cs, outs, later3) =
        bind_ok
          (compute_out_commitments lib (w.erc20_token_address ∷ []) none job.out_amounts
            job.out_note_h0_ax job.out_note_h0_ay job.out_time_stamp w.nullifying_key
            w.spending_public_key [] [])
          _ later2 in
      let (total, summed, later4) =
        bind_ok (at job.in_amounts 0 >>= add_amounts (pos 0)) _ later3 in
      let (row_in, row_in_is, total_is) =
        bind_ok (at job.in_amounts 0) (add_amounts (pos 0)) summed in
      let (covers, later5) =
        guard_ok (leb_ℤ total w.fee_structure.flat_fee) fee_not_covered _ later4 in
      let (t, conserved, later6) =
        bind_ok
          (assert_amounts_conserve (w.erc20_token_address ∷ []) job.in_amounts job.out_amounts none
            (int_text (neg_ℤ total) ∷ []))
          _ later5 in
      let (u, hashed, made) = bind_ok (assert_job_hash_matches lib w job rows cs total) _ later6 in
      record {
        rows = rows;
        row = row;
        row_in = row_in;
        total = total;
        rows_are = rows_are;
        row_is = row_is;
        adds = adds ∙ made;
        row_in_is = row_in_is;
        total_is = total_is;
        covers = covers;
        conserved = conserved;
      }
