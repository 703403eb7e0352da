-- ===== src/Enclave/Conserved.antt =====
-- The amounts of an accepted answer are conserved, token by token.
pub mod Rows
pub mod Exact
use mathlib.Core.Path.{subst}
use hinkal_go.Prelude.{
  ℕ, zero, suc, ◌+◌, ◌≡◌, sym, ap, ◌∙◌, arith, not, ◌||◌, Option, some, List, [], ◌∷◌, length, take,
  get_elem?, Text, nat_eq, nat_beq_iff, ◌==◌, ok, ◌>>=◌, or_err, bind_ok, some-injective, guard_ok,
  fail_if_ok, ok-injective,
}
use hinkal_go.Prelude.Int.{ℤ, pos, ◌+ℤ◌, int_laws}
use hinkal_go.Enclave.{out_of_range, arrays_mismatch, amounts_not_conserved, big_int, at}
use hinkal_go.Enclave.Compare.{beq_ℤ-eq}
use hinkal_go.Enclave.Outputs.{self_slot_count}
use hinkal_go.Enclave.Amounts.{
  add_amounts, assert_row_conserves, assert_rows_conserve, assert_rows_long_enough,
  assert_requested_outputs, assert_amounts_conserve, add_recipient_amounts, signed_changes_from,
  compute_amount_changes_signed,
}

-- The numbers of a token: what its inputs hold, the change, and what its own outputs hold.
pub record RowTotals (slots : ℕ) (ins outs : List Text) (change_text : Text) : Type 0 where
  pub total_in : ℤ
  pub change : ℤ
  pub total_self : ℤ
  pub ins_add : add_amounts (pos 0) ins ≡ ok total_in
  pub change_is : big_int change_text ≡ ok change
  pub outs_add : add_amounts (pos 0) (take slots outs) ≡ ok total_self
  pub conserved : total_in +ℤ change ≡ total_self

pub assert_row_conserves-totals :
    (slots : ℕ) (ins outs : List Text) (change_text : Text)
    → assert_row_conserves slots ins outs change_text ≡ ok tt
    → RowTotals slots ins outs change_text
unfolding assert_row_conserves
assert_row_conserves-totals slots ins outs change_text e =
    let (total_in, ins_add, later) = bind_ok (add_amounts (pos 0) ins) _ e in
    let (total_self, outs_add, rest) = bind_ok (add_amounts (pos 0) (take slots outs)) _ later in
    let (change, change_is, compared) = bind_ok (big_int change_text) _ rest in
    record {
      total_in = total_in;
      change = change;
      total_self = total_self;
      ins_add = ins_add;
      change_is = change_is;
      outs_add = outs_add;
      conserved =
          beq_ℤ-eq (total_in +ℤ change) total_self (fail_if_ok _ amounts_not_conserved compared);
    }

assert_rows_conserve-totals :
    (slots i : ℕ) (tokens : List Text) (ins outs : List (List Text)) (changes : List Text)
    (token : Text) (row_in row_out : List Text) (change_text : Text)
    → assert_rows_conserve slots tokens ins outs changes ≡ ok tt
    → get_elem? tokens i ≡ some token
    → get_elem? ins i ≡ some row_in
    → get_elem? outs i ≡ some row_out
    → get_elem? changes i ≡ some change_text
    → RowTotals slots row_in row_out change_text
unfolding assert_rows_conserve
assert_rows_conserve-totals slots i [] ins outs changes token row_in row_out c e ht hi ho hc = cc
assert_rows_conserve-totals slots i (t ∷ tokens) [] outs changes token row_in row_out c e ht hi ho
      hc =
    cc
assert_rows_conserve-totals slots i (t ∷ tokens) (r ∷ ins) [] changes token row_in row_out c e ht hi
      ho hc =
    cc
assert_rows_conserve-totals slots i (t ∷ tokens) (r ∷ ins) (o ∷ outs) [] token row_in row_out c e ht
      hi ho hc =
    cc
assert_rows_conserve-totals slots zero (t ∷ tokens) (r ∷ ins) (o ∷ outs) (d ∷ changes) token row_in
      row_out c e ht hi ho hc =
    let (passed, first, later) = bind_ok (assert_row_conserves slots r o d) _ e in
    subst (λ (x : List Text). RowTotals slots x row_out c) (some-injective hi)
      (subst (λ (x : List Text). RowTotals slots r x c) (some-injective ho)
        (subst (λ (x : Text). RowTotals slots r o x) (some-injective hc)
          (assert_row_conserves-totals slots r o d first)))
assert_rows_conserve-totals slots (suc i) (t ∷ tokens) (r ∷ ins) (o ∷ outs) (d ∷ changes) token
      row_in row_out c e ht hi ho hc =
    let (passed, first, later) = bind_ok (assert_row_conserves slots r o d) _ e in
    assert_rows_conserve-totals slots i tokens ins outs changes token row_in row_out c later ht hi
      ho hc

-- The signed change of a token: the caller's change, and what the recipients get.
pub record SignedChange (i : ℕ) (change_text : Text) (recipient_amounts : List (List Text))
    (signed : Option ℤ) : Type 0 where
  pub own_change : ℤ
  pub total_recipients : ℤ
  pub own_change_is : big_int change_text ≡ ok own_change
  pub recipients_add : add_recipient_amounts i (pos 0) recipient_amounts ≡ ok total_recipients
  pub signed_is : signed ≡ some (own_change +ℤ total_recipients)

signed_changes_from-lem :
    (k i j : ℕ) (tokens changes : List Text) (recipient_amounts : List (List Text))
    (signed : List ℤ) (token change_text : Text)
    → j ≡ k + i
    → signed_changes_from k tokens changes recipient_amounts ≡ ok signed
    → get_elem? tokens i ≡ some token
    → get_elem? changes j ≡ some change_text
    → SignedChange j change_text recipient_amounts (get_elem? signed i)
unfolding signed_changes_from
signed_changes_from-lem k i j [] changes ramounts signed token c at_j e ht hc = cc
signed_changes_from-lem k zero j (t ∷ tokens) changes ramounts signed token c at_j e ht hc =
    let (own_change, found, later) = bind_ok (at changes k >>= big_int) _ e in
    let (text, listed, parsed) = bind_ok (at changes k) big_int found in
    let (total, added, more) = bind_ok (add_recipient_amounts k (pos 0) ramounts) _ later in
    let (rest, run, made) = bind_ok (signed_changes_from (k + 1) tokens changes ramounts) _ more in
    let here : j ≡ k = omega arith in
    let same_text : text ≡ c = ok-injective (
      sym listed
      ∙ ap (at changes) (sym here)
      ∙ ap (λ (o : Option Text). or_err o out_of_range) hc) in
    record {
      own_change = own_change;
      total_recipients = total;
      own_change_is = ap big_int (sym same_text) ∙ parsed;
      recipients_add = ap (λ (n : ℕ). add_recipient_amounts n (pos 0) ramounts) here ∙ added;
      signed_is = ap (λ (l : List ℤ). get_elem? l 0) (sym (ok-injective made));
    }
signed_changes_from-lem k (suc i) j (t ∷ tokens) changes ramounts signed token c at_j e ht hc =
    let (own_change, found, later) = bind_ok (at changes k >>= big_int) _ e in
    let (total, added, more) = bind_ok (add_recipient_amounts k (pos 0) ramounts) _ later in
    let (rest, run, made) = bind_ok (signed_changes_from (k + 1) tokens changes ramounts) _ more in
    let next =
      signed_changes_from-lem (k + 1) i j tokens changes ramounts rest token c (omega arith) run ht
        hc in
    subst (λ (l : List ℤ). SignedChange j c ramounts (get_elem? l (suc i))) (ok-injective made) next

-- A token of an accepted answer: what goes in and the signed change are what the own outputs and
-- the recipients get.
pub record TokenBalance (slots i : ℕ) (ins outs : List Text) (recipient_amounts : List (List Text))
    (signed : Option ℤ) : Type 0 where
  pub total_in : ℤ
  pub change : ℤ
  pub total_self : ℤ
  pub total_recipients : ℤ
  pub ins_add : add_amounts (pos 0) ins ≡ ok total_in
  pub outs_add : add_amounts (pos 0) (take slots outs) ≡ ok total_self
  pub recipients_add : add_recipient_amounts i (pos 0) recipient_amounts ≡ ok total_recipients
  pub signed_is : signed ≡ some change
  pub balanced : total_in +ℤ change ≡ total_self +ℤ total_recipients

regroup : (a b d : ℤ) → a +ℤ (b +ℤ d) ≡ (a +ℤ b) +ℤ d
regroup a b d = omega int_laws

-- Accepted amounts have a row of outputs for each token.
pub assert_amounts_conserve-length :
    (tokens : List Text) (ins outs : List (List Text)) (self_outputs : Option (List Text))
    (changes : List Text)
    → assert_amounts_conserve tokens ins outs self_outputs changes ≡ ok tt
    → length outs ≡ length tokens
unfolding assert_amounts_conserve
assert_amounts_conserve-length tokens ins outs selfs changes e =
    let (lengths, later) =
      guard_ok
        (not (length ins == length tokens)
          || not (length outs == length tokens)
          || not (length changes == length tokens))
        arrays_mismatch _ e in
    ground (arith, nat_beq_iff (length outs) (length tokens))

-- The totals of a token of accepted amounts.
pub assert_amounts_conserve-totals :
    (i : ℕ) (tokens : List Text) (ins outs : List (List Text)) (self_outputs : Option (List Text))
    (changes : List Text) (token : Text) (row_in row_out : List Text) (change_text : Text)
    → assert_amounts_conserve tokens ins outs self_outputs changes ≡ ok tt
    → get_elem? tokens i ≡ some token
    → get_elem? ins i ≡ some row_in
    → get_elem? outs i ≡ some row_out
    → get_elem? changes i ≡ some change_text
    → RowTotals (self_slot_count self_outputs) row_in row_out change_text
unfolding assert_amounts_conserve
assert_amounts_conserve-totals i tokens ins outs selfs changes token row_in row_out c e =
    let slots = self_slot_count selfs in
    let (lengths, later) =
      guard_ok
        (not (length ins == length tokens)
          || not (length outs == length tokens)
          || not (length changes == length tokens))
        arrays_mismatch _ e in
    let (long, rows_long, rest) = bind_ok (assert_rows_long_enough slots outs) _ later in
    let (asked, requested, conserve) = bind_ok (assert_requested_outputs selfs outs) _ rest in
    assert_rows_conserve-totals slots i tokens ins outs changes token row_in row_out c conserve

-- Where the amounts are accepted and the signed changes are computed, every token's inputs and its
-- signed change are together what its own outputs hold and what its recipients get.
pub assert_amounts_conserve-balanced :
    (i : ℕ) (tokens : List Text) (ins outs : List (List Text)) (self_outputs : Option (List Text))
    (changes : List Text) (recipient_amounts : List (List Text)) (signed : List ℤ) (token : Text)
    (row_in row_out : List Text) (change_text : Text)
    → assert_amounts_conserve tokens ins outs self_outputs changes ≡ ok tt
    → compute_amount_changes_signed tokens changes recipient_amounts ≡ ok signed
    → get_elem? tokens i ≡ some token
    → get_elem? ins i ≡ some row_in
    → get_elem? outs i ≡ some row_out
    → get_elem? changes i ≡ some change_text
    → TokenBalance
        (self_slot_count self_outputs)
        i
        row_in
        row_out
        recipient_amounts
        (get_elem? signed i)
unfolding compute_amount_changes_signed
assert_amounts_conserve-balanced i tokens ins outs selfs changes ramounts signed token row_in
      row_out c e computed ht hi ho hc =
    let row =
      assert_amounts_conserve-totals i tokens ins outs selfs changes token row_in row_out c e ht hi
        ho hc in
    let sign =
      signed_changes_from-lem 0 i i tokens changes ramounts signed token c (omega arith) computed ht
        hc in
    let same : sign.own_change ≡ row.change =
      ok-injective (sym sign.own_change_is ∙ row.change_is) in
    record {
      total_in = row.total_in;
      change = sign.own_change +ℤ sign.total_recipients;
      total_self = row.total_self;
      total_recipients = sign.total_recipients;
      ins_add = row.ins_add;
      outs_add = row.outs_add;
      recipients_add = sign.recipients_add;
      signed_is = sign.signed_is;
      balanced =
          regroup row.total_in sign.own_change sign.total_recipients
          ∙ ap (λ (b : ℤ). (row.total_in +ℤ b) +ℤ sign.total_recipients) same
          ∙ ap (λ (t : ℤ). t +ℤ sign.total_recipients) row.conserved;
    }
