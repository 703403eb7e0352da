-- ===== src/Enclave/Jobs/Withdrawal.antt =====
-- Every job that withdraws stuck notes covers its fee and withdraws all of its inputs.
use mathlib.Core.Path.{subst}
use hinkal_go.Prelude.{
  ℕ, zero, suc, ◌+◌, ◌≡◌, refl, sym, ap, ◌∙◌, arith, true, false, Option, none, some, List, [], ◌∷◌,
  length, take, get_elem?, Text, text_eq, ok, or_err, bind_ok, some-injective, ok-injective,
}
use hinkal_go.Prelude.Int.{ℤ, pos, ◌+ℤ◌, neg_ℤ, leb_ℤ, ltb_ℤ, int_laws, pos_part, neg_part}
use hinkal_go.Numbers.{int_text}
use hinkal_go.Enclave.{EnclaveError, out_of_range, Library}
use hinkal_go.Enclave.Compare.{big_int-int_text}
use hinkal_go.Enclave.Outputs.{self_slot_count}
use hinkal_go.Enclave.Amounts.{add_amounts}
use hinkal_go.Enclave.Request.{Preimage}
use hinkal_go.Enclave.Conserved.{assert_amounts_conserve-length, assert_amounts_conserve-totals}
use hinkal_go.Enclave.Stuck.{StuckWithdraw, verify_stuck_withdraw_job, verify_jobs}
use hinkal_go.Enclave.Jobs.{JobFacts, verify_stuck_withdraw_job-facts}

only_row :
    (rows : List (List Text)) → length rows ≡ 1 → (row : List Text) × (get_elem? rows 0 ≡ some row)
only_row [] e = absurd (omega arith)
only_row (row ∷ rows) e = (row, refl)

or_err-some :
    {A : Type 0} {a : A} (o : Option A) (x : EnclaveError) → or_err o x ≡ ok a → o ≡ some a
or_err-some none x e = cc
or_err-some (some b) x e = ap some (ok-injective e)

above : (total fee : ℤ) → leb_ℤ total fee ≡ false → ltb_ℤ fee total ≡ true
above total fee h = ground arith

neg_ℤ_parts : (a : ℤ) → pos_part (neg_ℤ a) + pos_part a ≡ neg_part (neg_ℤ a) + neg_part a
neg_ℤ_parts a = ground arith

cancel : (a : ℤ) → a +ℤ neg_ℤ a ≡ pos 0
cancel a = omega (int_laws, neg_ℤ_parts a)

module _ (lib : Library) (w : StuckWithdraw) where
  -- What an accepted job withdraws: its inputs hold more than the fee, and its own output nothing.
  pub record IsWithdrawal (job : Preimage) : Type 0 where
    pub input_row : List Text
    pub output_row : List Text
    pub input_total : ℤ
    pub input_row_is : get_elem? job.in_amounts 0 ≡ some input_row
    pub output_row_is : get_elem? job.out_amounts 0 ≡ some output_row
    pub input_total_is : add_amounts (pos 0) input_row ≡ ok input_total
    pub above_fee : ltb_ℤ w.fee_structure.flat_fee input_total ≡ true
    pub output_empty : add_amounts (pos 0) (take 1 output_row) ≡ ok (pos 0)

  withdrawal :
      (job : Preimage) (before after : List Text)
      → JobFacts lib w job before after
      → IsWithdrawal job
  unfolding self_slot_count
  withdrawal job before after facts =
      let (row_out, out_is) =
        only_row job.out_amounts (assert_amounts_conserve-length _ _ _ _ _ facts.conserved) in
      let row_in_is = or_err-some (get_elem? job.in_amounts 0) out_of_range facts.row_in_is in
      let totals =
        assert_amounts_conserve-totals 0 (w.erc20_token_address ∷ []) job.in_amounts job.out_amounts
          none (int_text (neg_ℤ facts.total) ∷ []) w.erc20_token_address facts.row_in row_out
          (int_text (neg_ℤ facts.total)) facts.conserved refl row_in_is out_is refl in
      let same_total : totals.total_in ≡ facts.total =
        ok-injective (sym totals.ins_add ∙ facts.total_is) in
      let same_change : totals.change ≡ neg_ℤ facts.total =
        ok-injective (sym totals.change_is ∙ big_int-int_text (neg_ℤ facts.total)) in
      record {
        input_row = facts.row_in;
        output_row = row_out;
        input_total = facts.total;
        input_row_is = row_in_is;
        output_row_is = out_is;
        input_total_is = facts.total_is;
        above_fee = above facts.total w.fee_structure.flat_fee facts.covers;
        output_empty =
            totals.outs_add
            ∙ ap ok (
                sym totals.conserved
                ∙ ap (λ (t : ℤ). t +ℤ totals.change) same_total
                ∙ ap (λ (c : ℤ). facts.total +ℤ c) same_change
                ∙ cancel facts.total);
      }

  -- Every accepted job's inputs hold more than the relayer's fee, and its own output holds nothing:
  -- all of the inputs is withdrawn.
  pub verify_jobs-IsWithdrawal :
      (i : ℕ) (jobs : List Preimage) (before after : List Text) (job : Preimage)
      → verify_jobs lib w jobs before ≡ ok after
      → get_elem? jobs i ≡ some job
      → IsWithdrawal job
  unfolding verify_jobs
  verify_jobs-IsWithdrawal i [] before after job e h = cc
  verify_jobs-IsWithdrawal zero (j ∷ jobs) before after job e h =
      let (spent, first, later) = bind_ok (verify_stuck_withdraw_job lib w j before) _ e in
      subst IsWithdrawal (some-injective h)
        (withdrawal j before spent (verify_stuck_withdraw_job-facts lib w j before spent first))
  verify_jobs-IsWithdrawal (suc i) (j ∷ jobs) before after job e h =
      let (spent, first, later) = bind_ok (verify_stuck_withdraw_job lib w j before) _ e in
      verify_jobs-IsWithdrawal i jobs spent after job later h
