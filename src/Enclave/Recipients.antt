-- ===== src/Enclave/Recipients.antt =====
-- The recipients' notes come from the caller's data alone.
use mathlib.Core.Path.{subst}
use hinkal_go.Prelude.{
  ℕ, zero, suc, ◌+◌, ◌≡◌, refl, sym, ap, ◌∙◌, arith, not, ◌||◌, Option, List, [], ◌∷◌, ◌++◌, map,
  length, drop, Text, nat_eq, ltb, ◌==◌, Result, ok, ◌>>=◌, bind_ok, guard_ok, ok-injective,
}
use hinkal_go.Prelude.Int.{ℤ}
use hinkal_go.Enclave.{
  EnclaveError, row_too_short, recipients_mismatch, arrays_mismatch, Library, strings_to_big_ints,
}
use hinkal_go.Enclave.Inputs.{are_lengths_different}
use hinkal_go.Enclave.Outputs.{
  self_slot_count, self_slot, self_row, recipient_row, out_row, out_rows, compute_out_commitments,
}

drop-append : (n : ℕ) (xs ys : List Text) → length xs ≡ n → drop n (xs ++ ys) ≡ ys
drop-append zero [] ys e = refl
drop-append zero (x ∷ xs) ys e = absurd (omega arith)
drop-append (suc n) [] ys e = absurd (omega arith)
drop-append (suc n) (x ∷ xs) ys e = drop-append n xs ys (omega arith)

module _ (lib : Library) where
  length-self_row :
      (nk : Text) (own : List ℤ) (time_stamp token : Text) (slots : ℕ)
      (amounts xs ys row : List Text)
      → self_row lib nk own time_stamp token slots amounts xs ys ≡ ok row
      → length row ≡ slots
  unfolding self_row
  length-self_row nk own ts token zero amounts xs ys row e = ap length (sym (ok-injective e))
  length-self_row nk own ts token (suc slots) [] xs ys row e = cc
  length-self_row nk own ts token (suc slots) (a ∷ amounts) [] ys row e = cc
  length-self_row nk own ts token (suc slots) (a ∷ amounts) (x ∷ xs) [] row e = cc
  length-self_row nk own ts token (suc slots) (a ∷ amounts) (x ∷ xs) (y ∷ ys) row e =
      let (c, first, later) = bind_ok (self_slot lib nk own ts token a x y) _ e in
      let (rest, run, made) = bind_ok (self_row lib nk own ts token slots amounts xs ys) _ later in
      let shorter = length-self_row nk own ts token slots amounts xs ys rest run in
      ap length (sym (ok-injective made)) ∙ ap suc shorter

  -- Behind the own slots stands the row of the recipients.
  out_row-recipients :
      (nk : Text) (own : List ℤ) (time_stamp : Text) (slots : ℕ) (recipients : List Text)
      (recipient_amounts : List (List Text)) (i : ℕ) (token : Text) (a x y row : List Text)
      → out_row lib nk own time_stamp slots recipients recipient_amounts i token a x y ≡ ok row
      → recipient_row lib time_stamp token i recipients recipient_amounts ≡ ok (drop slots row)
  unfolding out_row
  out_row-recipients nk own ts slots recipients ramounts i token a x y row e =
      let (long, later) =
        guard_ok (ltb (length a) slots || ltb (length x) slots || ltb (length y) slots)
          row_too_short _ e in
      let (selfs, first, others) = bind_ok (self_row lib nk own ts token slots a x y) _ later in
      let (rest, run, made) = bind_ok (recipient_row lib ts token i recipients ramounts) _ others in
      let size = length-self_row nk own ts token slots a x y selfs first in
      run ∙ ap ok (sym (drop-append slots selfs rest size) ∙ ap (drop slots) (ok-injective made))

  -- The recipients' commitments of every token, of the caller's addresses and amounts and a time.
  unfoldable pub recipient_rows :
      Text → List Text → List (List Text) → ℕ → List Text → Result EnclaveError (List (List Text))
  recipient_rows time_stamp recipients recipient_amounts i [] = ok []
  recipient_rows time_stamp recipients recipient_amounts i (token ∷ tokens) =
      recipient_row lib time_stamp token i recipients recipient_amounts >>= λ row.
      recipient_rows time_stamp recipients recipient_amounts (i + 1) tokens >>= λ rest.
      ok (row ∷ rest)

  out_rows-recipients :
      (nk : Text) (own : List ℤ) (time_stamp : Text) (slots : ℕ) (recipients : List Text)
      (recipient_amounts : List (List Text)) (i : ℕ) (tokens : List Text)
      (amounts xs ys rows : List (List Text))
      → out_rows lib nk own time_stamp slots recipients recipient_amounts i tokens amounts xs ys
        ≡ ok rows
      → recipient_rows time_stamp recipients recipient_amounts i tokens ≡ ok (map (drop slots) rows)
  unfolding out_rows recipient_rows
  out_rows-recipients nk own ts slots recipients ramounts i [] amounts xs ys rows e =
      ap ok (ap (map (drop slots)) (ok-injective e))
  out_rows-recipients nk own ts slots recipients ramounts i (token ∷ tokens) [] xs ys rows e = cc
  out_rows-recipients nk own ts slots recipients ramounts i (token ∷ tokens) (a ∷ amounts) [] ys
        rows e =
      cc
  out_rows-recipients nk own ts slots recipients ramounts i (token ∷ tokens) (a ∷ amounts) (x ∷ xs)
        [] rows e =
      cc
  out_rows-recipients nk own ts slots recipients ramounts i (token ∷ tokens) (a ∷ amounts) (x ∷ xs)
        (y ∷ ys) rows e =
      let (row, first, later) =
        bind_ok (out_row lib nk own ts slots recipients ramounts i token a x y) _ e in
      let (rest, run, made) =
        bind_ok (out_rows lib nk own ts slots recipients ramounts (i + 1) tokens amounts xs ys) _
          later in
      let row_recipients =
        out_row-recipients nk own ts slots recipients ramounts i token a x y row first in
      let rest_recipients =
        out_rows-recipients nk own ts slots recipients ramounts (i + 1) tokens amounts xs ys rest
          run in
      subst
        (λ (r : List (List Text)).
          recipient_rows ts recipients ramounts i (token ∷ tokens) ≡ ok (map (drop slots) r))
        (ok-injective made) (rw (row_recipients, rest_recipients) refl)

-- Behind the own slots, the rows of an accepted answer hold the recipients' commitments of the
-- caller's addresses and amounts at the answer's time, whatever the answer's amounts and points are.
pub compute_out_commitments-recipients :
    (lib : Library) (tokens : List Text) (self_outputs : Option (List Text))
    (amounts xs ys : List (List Text)) (time_stamp nk : Text) (public_key : Text × Text)
    (recipients : List Text) (recipient_amounts rows : List (List Text))
    → compute_out_commitments lib tokens self_outputs amounts xs ys time_stamp nk public_key
        recipients recipient_amounts
      ≡ ok rows
    → recipient_rows lib time_stamp recipients recipient_amounts 0 tokens
      ≡ ok (map (drop (self_slot_count self_outputs)) rows)
unfolding compute_out_commitments
compute_out_commitments-recipients lib tokens selfs amounts xs ys ts nk public_key recipients
      ramounts rows e =
    let (paired, later) =
      guard_ok (not (length recipients == length ramounts)) recipients_mismatch _ e in
    let (lengths, run) =
      guard_ok (are_lengths_different (length tokens) amounts xs ys) arrays_mismatch _ later in
    let (own, keys, made) =
      bind_ok (strings_to_big_ints (public_key.0 ∷ public_key.1 ∷ [])) _ run in
    out_rows-recipients lib nk own ts (self_slot_count selfs) recipients ramounts 0 tokens amounts
      xs ys rows made
