-- ===== src/Enclave/Conserved/Exact.antt =====
-- The check of the amounts of `verifyAssertAmountsConserve`, against what it is to mean.
use mathlib.Core.Path.{subst}
use hinkal_go.Prelude.{
  ℕ, zero, suc, ◌≤◌, ◌≡◌, ◌↔◌, refl, ap, ◌∙◌, arith, true, false, not, ◌||◌, Option, none, some,
  List, [], ◌∷◌, length, get_elem?, Text, nat_eq, text_eq, text_beq_iff, nat_beq_iff, ltb, ltb→le,
  ◌==◌, ok, bind_ok, some-injective, guard_ok,
}
use hinkal_go.Enclave.{arrays_mismatch, row_too_short, self_outputs_mismatch}
use hinkal_go.Enclave.Outputs.{self_slot_count}
use hinkal_go.Enclave.Amounts.{
  assert_self_outputs, assert_rows_long_enough, assert_requested_outputs, assert_amounts_conserve,
}
use hinkal_go.Enclave.Conserved.Rows.{IsBalanced, rows-IsBalanced, balanced_rows}

-- The amounts of all tokens: the lists have an entry for each, every row has the own slots, the
-- requested outputs are those of the first row, and every token is balanced.
pub record AreBalanced (tokens : List Text) (ins outs : List (List Text))
    (self_outputs : Option (List Text)) (changes : List Text) : Type 0 where
  pub ins_fit : length ins ≡ length tokens
  pub outs_fit : length outs ≡ length tokens
  pub changes_fit : length changes ≡ length tokens
  pub slots_fit :
      (j : ℕ) (row : List Text)
      → get_elem? outs j ≡ some row
      → self_slot_count self_outputs ≤ length row
  pub requested :
      (selfs : List Text)
      → self_outputs ≡ some selfs
      → (j : ℕ) (a : Text) → get_elem? selfs j ≡ some a
      → (row : List Text) × (get_elem? outs 0 ≡ some row) × (get_elem? row j ≡ some a)
  pub tokens_balanced :
      (i : ℕ) (row_in row_out : List Text) (change_text : Text)
      → get_elem? ins i ≡ some row_in
      → get_elem? outs i ≡ some row_out
      → get_elem? changes i ≡ some change_text
      → IsBalanced (self_slot_count self_outputs) row_in row_out change_text

-- The lengths of the rows.
rows_fit :
    (slots j : ℕ) (rows : List (List Text)) (row : List Text)
    → assert_rows_long_enough slots rows ≡ ok tt
    → get_elem? rows j ≡ some row
    → slots ≤ length row
unfolding assert_rows_long_enough
rows_fit slots j [] row e h = cc
rows_fit slots zero (r ∷ rows) row e h =
    let (fits, later) = guard_ok (ltb (length r) slots) row_too_short _ e in
    subst (λ (x : List Text). slots ≤ length x) (some-injective h) (ltb→le (length r) slots fits)
rows_fit slots (suc j) (r ∷ rows) row e h =
    let (fits, later) = guard_ok (ltb (length r) slots) row_too_short _ e in
    rows_fit slots j rows row later h

fitting_rows :
    (slots : ℕ) (rows : List (List Text))
    → ((j : ℕ) (row : List Text) → get_elem? rows j ≡ some row → slots ≤ length row)
    → assert_rows_long_enough slots rows ≡ ok tt
unfolding assert_rows_long_enough
fitting_rows slots [] fits = refl
fitting_rows slots (r ∷ rows) fits =
    let go : ltb (length r) slots ≡ false = ground (arith, fits 0 r refl) in
    rw go (fitting_rows slots rows (λ j. fits (suc j)))

-- The requested outputs.
same_text : (a b : Text) → not (a == b) ≡ false → a ≡ b
same_text a b e = (text_beq_iff a b).0 (ground arith)

outputs_are :
    (j : ℕ) (selfs row : List Text) (a : Text)
    → assert_self_outputs selfs row ≡ ok tt
    → get_elem? selfs j ≡ some a
    → get_elem? row j ≡ some a
unfolding assert_self_outputs
outputs_are j [] row a e h = cc
outputs_are j (x ∷ selfs) [] a e h = cc
outputs_are zero (x ∷ selfs) (y ∷ row) a e h =
    let (same, later) = guard_ok (not (y == x)) self_outputs_mismatch _ e in
    ap some (same_text y x same) ∙ h
outputs_are (suc j) (x ∷ selfs) (y ∷ row) a e h =
    let (same, later) = guard_ok (not (y == x)) self_outputs_mismatch _ e in
    outputs_are j selfs row a later h

are_outputs :
    (selfs row : List Text)
    → ((j : ℕ) (a : Text) → get_elem? selfs j ≡ some a → get_elem? row j ≡ some a)
    → assert_self_outputs selfs row ≡ ok tt
unfolding assert_self_outputs
are_outputs [] row same = refl
are_outputs (x ∷ selfs) [] same = let none_there = same 0 x refl in cc
are_outputs (x ∷ selfs) (y ∷ row) same =
    let here : (y == x) ≡ true = (text_beq_iff y x).1 (some-injective (same 0 x refl)) in
    rw here (are_outputs selfs row (λ j. same (suc j)))

requested_are :
    (self_outputs : Option (List Text)) (selfs : List Text) (outs : List (List Text)) (j : ℕ)
    (a : Text)
    → assert_requested_outputs self_outputs outs ≡ ok tt
    → self_outputs ≡ some selfs
    → get_elem? selfs j ≡ some a
    → (row : List Text) × (get_elem? outs 0 ≡ some row) × (get_elem? row j ≡ some a)
unfolding assert_requested_outputs
requested_are none selfs outs j a e given h = cc
requested_are (some []) selfs outs j a e given h =
    let none_there : get_elem? {A = Text} [] j ≡ some a =
      ap (λ (l : List Text). get_elem? l j) (some-injective given) ∙ h in
    cc
requested_are (some (x ∷ asked)) selfs [] j a e given h = cc
requested_are (some (x ∷ asked)) selfs (row ∷ outs) j a e given h =
    let there : get_elem? (x ∷ asked) j ≡ some a =
      ap (λ (l : List Text). get_elem? l j) (some-injective given) ∙ h in
    (row, refl, outputs_are j (x ∷ asked) row a e there)

are_requested :
    (self_outputs : Option (List Text)) (outs : List (List Text))
    → ((selfs : List Text)
        → self_outputs ≡ some selfs
        → (j : ℕ) (a : Text) → get_elem? selfs j ≡ some a
        → (row : List Text) × (get_elem? outs 0 ≡ some row) × (get_elem? row j ≡ some a))
    → assert_requested_outputs self_outputs outs ≡ ok tt
unfolding assert_requested_outputs
are_requested none outs same = refl
are_requested (some []) outs same = refl
are_requested (some (x ∷ asked)) [] same =
    let (row, first, there) = same (x ∷ asked) refl 0 x refl in cc
are_requested (some (x ∷ asked)) (row ∷ outs) same = are_outputs (x ∷ asked) row (λ j a h.
    let (r, first, there) = same (x ∷ asked) refl j a h in
    ap (λ (l : List Text). get_elem? l j) (some-injective first) ∙ there)

lengths_fit :
    (n i o c : ℕ)
    → (not (i == n) || not (o == n) || not (c == n)) ≡ false
    → (i ≡ n) × (o ≡ n) × (c ≡ n)
lengths_fit n i o c e = ground (arith, nat_beq_iff i n, nat_beq_iff o n, nat_beq_iff c n)

-- verifyAssertAmountsConserve accepts amounts exactly when each list has an entry for each token,
-- every row of outputs has the own slots, the requested outputs are those of the first row, and of
-- every token the inputs and the caller's change, read as numbers, add up to its own outputs.
pub assert_amounts_conserve-AreBalanced :
    (tokens : List Text) (ins outs : List (List Text)) (self_outputs : Option (List Text))
    (changes : List Text)
    → (assert_amounts_conserve tokens ins outs self_outputs changes ≡ ok tt)
      ↔ AreBalanced tokens ins outs self_outputs changes
unfolding assert_amounts_conserve
assert_amounts_conserve-AreBalanced tokens ins outs selfs changes = (
  λ e.
      let slots = self_slot_count selfs in
      let (lengths, later) =
        guard_ok
          (not (length ins == length tokens)
            || not (length outs == length tokens)
            || not (length changes == length tokens))
          arrays_mismatch _ e in
      let (t1, long, rest) = bind_ok (assert_rows_long_enough slots outs) _ later in
      let (t2, asked, conserve) = bind_ok (assert_requested_outputs selfs outs) _ rest in
      let (fit_i, fit_o, fit_c) =
        lengths_fit (length tokens) (length ins) (length outs) (length changes) lengths in
      record {
        ins_fit = fit_i;
        outs_fit = fit_o;
        changes_fit = fit_c;
        slots_fit = λ j row. rows_fit slots j outs row long;
        requested =
            λ given_selfs given j a h. requested_are selfs given_selfs outs j a asked given h;
        tokens_balanced = λ i row_in row_out c.
            rows-IsBalanced slots i tokens ins outs changes row_in row_out c fit_i conserve;
      },
  λ b.
      let i_fits = (nat_beq_iff (length ins) (length tokens)).1 b.ins_fit in
      let o_fits = (nat_beq_iff (length outs) (length tokens)).1 b.outs_fit in
      let c_fits = (nat_beq_iff (length changes) (length tokens)).1 b.changes_fit in
      rw
        (
          i_fits,
          o_fits,
          c_fits,
          fitting_rows (self_slot_count selfs) outs b.slots_fit,
          are_requested selfs outs b.requested,
        )
        (balanced_rows (self_slot_count selfs) tokens ins outs changes b.ins_fit b.outs_fit
          b.changes_fit b.tokens_balanced),
)
