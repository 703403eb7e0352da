-- ===== src/Enclave/Conserved/Rows.antt =====
-- What the loop of `verifyAssertAmountsConserve` over the tokens accepts.
use mathlib.Core.Path.{subst}
use hinkal_go.Prelude.{
  ℕ, zero, suc, ◌≡◌, refl, sym, ap, ◌∙◌, arith, some, List, [], ◌∷◌, length, take, get_elem?, Text,
  nat_eq, text_eq, ok, bind_ok, some-injective, ok-injective,
}
use hinkal_go.Prelude.Int.{ℤ, pos, ◌+ℤ◌, int_laws}
use hinkal_go.Enclave.{big_int}
use hinkal_go.Enclave.Compare.{beq_ℤ-refl}
use hinkal_go.Enclave.Amounts.{add_amounts, assert_row_conserves, assert_rows_conserve}
use hinkal_go.Enclave.Conserved.{assert_row_conserves-totals}

-- The texts of a row read as numbers, in their order.
abbrev pub Reads : List Text → List ℤ → Type 0
Reads [] [] = Unit
Reads [] (_ ∷ _) = ⊥
Reads (_ ∷ _) [] = ⊥
Reads (a ∷ row) (x ∷ xs) = (big_int a ≡ ok x) × Reads row xs

abbrev pub sum_ℤ : List ℤ → ℤ
sum_ℤ [] = pos 0
sum_ℤ (x ∷ xs) = x +ℤ sum_ℤ xs

-- A token: its texts are numbers, and what goes in and the change are what goes to the own slots.
pub record IsBalanced (slots : ℕ) (ins outs : List Text) (change_text : Text) : Type 0 where
  pub in_values : List ℤ
  pub own_values : List ℤ
  pub change : ℤ
  pub ins_read : Reads ins in_values
  pub own_read : Reads (take slots outs) own_values
  pub change_read : big_int change_text ≡ ok change
  pub balanced : sum_ℤ in_values +ℤ change ≡ sum_ℤ own_values

add_amounts-Reads :
    (total v : ℤ) (row : List Text)
    → add_amounts total row ≡ ok v
    → (xs : List ℤ) × Reads row xs × (v ≡ total +ℤ sum_ℤ xs)
unfolding add_amounts
add_amounts-Reads total v [] e = ([], tt, sym (ok-injective e) ∙ omega int_laws)
add_amounts-Reads total v (a ∷ row) e =
    let (x, read, later) = bind_ok (big_int a) _ e in
    let (xs, reads, same) = add_amounts-Reads (total +ℤ x) v row later in
    (x ∷ xs, (read, reads), same ∙ omega int_laws)

Reads-add_amounts :
    (total : ℤ) (row : List Text) (xs : List ℤ)
    → Reads row xs
    → add_amounts total row ≡ ok (total +ℤ sum_ℤ xs)
unfolding add_amounts
Reads-add_amounts total [] [] reads = ap ok (omega int_laws)
Reads-add_amounts total [] (x ∷ xs) reads = absurd reads
Reads-add_amounts total (a ∷ row) [] reads = absurd reads
Reads-add_amounts total (a ∷ row) (x ∷ xs) (read, reads) =
    rw read (Reads-add_amounts (total +ℤ x) row xs reads ∙ ap ok (omega int_laws))

zero_plus : (x : ℤ) → pos 0 +ℤ x ≡ x
zero_plus x = omega int_laws

row-IsBalanced :
    (slots : ℕ) (ins outs : List Text) (c : Text)
    → assert_row_conserves slots ins outs c ≡ ok tt
    → IsBalanced slots ins outs c
row-IsBalanced slots ins outs c e =
    let t = assert_row_conserves-totals slots ins outs c e in
    let (xs, ins_read, total_in) = add_amounts-Reads (pos 0) t.total_in ins t.ins_add in
    let (ys, own_read, total_self) =
      add_amounts-Reads (pos 0) t.total_self (take slots outs) t.outs_add in
    record {
      in_values = xs;
      own_values = ys;
      change = t.change;
      ins_read = ins_read;
      own_read = own_read;
      change_read = t.change_is;
      balanced =
          ap (λ (x : ℤ). x +ℤ t.change) (sym (total_in ∙ zero_plus (sum_ℤ xs)))
          ∙ t.conserved
          ∙ total_self
          ∙ zero_plus (sum_ℤ ys);
    }

balanced_row :
    (slots : ℕ) (ins outs : List Text) (c : Text)
    → IsBalanced slots ins outs c
    → assert_row_conserves slots ins outs c ≡ ok tt
unfolding assert_row_conserves
balanced_row slots ins outs c b =
    let same : (pos 0 +ℤ sum_ℤ b.in_values) +ℤ b.change ≡ pos 0 +ℤ sum_ℤ b.own_values =
      ap (λ (x : ℤ). x +ℤ b.change) (zero_plus (sum_ℤ b.in_values))
      ∙ b.balanced
      ∙ sym (zero_plus (sum_ℤ b.own_values)) in
    rw
      (
        Reads-add_amounts (pos 0) ins b.in_values b.ins_read,
        Reads-add_amounts (pos 0) (take slots outs) b.own_values b.own_read,
        b.change_read,
        same,
        beq_ℤ-refl (pos 0 +ℤ sum_ℤ b.own_values),
      )
      refl

-- The rows of all tokens.
pub rows-IsBalanced :
    (slots i : ℕ) (tokens : List Text) (ins outs : List (List Text)) (changes : List Text)
    (row_in row_out : List Text) (c : Text)
    → length ins ≡ length tokens
    → assert_rows_conserve slots tokens ins outs changes ≡ ok tt
    → get_elem? ins i ≡ some row_in
    → get_elem? outs i ≡ some row_out
    → get_elem? changes i ≡ some c
    → IsBalanced slots row_in row_out c
unfolding assert_rows_conserve
rows-IsBalanced slots i [] [] outs changes row_in row_out c fit e hi ho hc = cc
rows-IsBalanced slots i [] (r ∷ ins) outs changes row_in row_out c fit e hi ho hc =
    absurd (omega arith)
rows-IsBalanced slots i (t ∷ tokens) [] outs changes row_in row_out c fit e hi ho hc = cc
rows-IsBalanced slots i (t ∷ tokens) (r ∷ ins) [] changes row_in row_out c fit e hi ho hc = cc
rows-IsBalanced slots i (t ∷ tokens) (r ∷ ins) (o ∷ outs) [] row_in row_out c fit e hi ho hc = cc
rows-IsBalanced slots zero (t ∷ tokens) (r ∷ ins) (o ∷ outs) (d ∷ changes) row_in row_out c fit e hi
      ho hc =
    let (passed, first, later) = bind_ok (assert_row_conserves slots r o d) _ e in
    subst (λ (x : List Text). IsBalanced slots x row_out c) (some-injective hi)
      (subst (λ (x : List Text). IsBalanced slots r x c) (some-injective ho)
        (subst (λ (x : Text). IsBalanced slots r o x) (some-injective hc)
          (row-IsBalanced slots r o d first)))
rows-IsBalanced slots (suc i) (t ∷ tokens) (r ∷ ins) (o ∷ outs) (d ∷ changes) row_in row_out c fit e
      hi ho hc =
    let (passed, first, later) = bind_ok (assert_row_conserves slots r o d) _ e in
    rows-IsBalanced slots i tokens ins outs changes row_in row_out c (omega arith) later hi ho hc

pub balanced_rows :
    (slots : ℕ) (tokens : List Text) (ins outs : List (List Text)) (changes : List Text)
    → length ins ≡ length tokens
    → length outs ≡ length tokens
    → length changes ≡ length tokens
    → ((i : ℕ) (row_in row_out : List Text) (c : Text)
        → get_elem? ins i ≡ some row_in
        → get_elem? outs i ≡ some row_out
        → get_elem? changes i ≡ some c
        → IsBalanced slots row_in row_out c)
    → assert_rows_conserve slots tokens ins outs changes ≡ ok tt
unfolding assert_rows_conserve
balanced_rows slots [] ins outs changes hi ho hc b = refl
balanced_rows slots (t ∷ tokens) [] outs changes hi ho hc b = absurd (omega arith)
balanced_rows slots (t ∷ tokens) (r ∷ ins) [] changes hi ho hc b = absurd (omega arith)
balanced_rows slots (t ∷ tokens) (r ∷ ins) (o ∷ outs) [] hi ho hc b = absurd (omega arith)
balanced_rows slots (t ∷ tokens) (r ∷ ins) (o ∷ outs) (d ∷ changes) hi ho hc b =
    rw (balanced_row slots r o d (b 0 r o d refl refl refl)) (
      balanced_rows slots tokens ins outs changes (omega arith) (omega arith) (omega arith)
        (λ i. b (suc i)))
