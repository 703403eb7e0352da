-- ===== src/Enclave/Spent.antt =====
-- The commitments of the notes that an answer spends are collected.
pub mod Authorised
use mathlib.Core.Path.{subst}
use hinkal_go.Prelude.{
  ◌≡◌, inl, inr, sym, ◌∙◌, arith, true, false, not, ◌||◌, some, List, [], ◌∷◌, length, Text,
  text_eq, nat_eq, ◌==◌, ok, bind_ok, guard_ok, ok-injective, Bool-cases, All,
}
use hinkal_go.Prelude.Sets.{
  is_member, IsDistinct, is_member-add_member, is_member-kept, add_member-IsDistinct, every_member,
}
use hinkal_go.Prelude.Int.{ℤ}
use hinkal_go.Enclave.{
  rows_mismatch, arrays_mismatch, different_notes, Library, big_int, strings_to_big_ints, is_zero,
}
use hinkal_go.Enclave.Inputs.{
  spend, in_slot, in_row, in_rows, are_lengths_different, all_members, is_different,
  compute_in_nullifiers,
}

-- The texts of a slot, of the four rows of a token.
pub data IsRowSlot (a x y t : Text) : List Text → List Text → List Text → List Text → Type 0 where
  first_slot :
      {amounts xs ys time_stamps : List Text}
      → IsRowSlot a x y t (a ∷ amounts) (x ∷ xs) (y ∷ ys) (t ∷ time_stamps)
  later_slot :
      {b u v s : Text} {amounts xs ys time_stamps : List Text}
      → IsRowSlot a x y t amounts xs ys time_stamps
      → IsRowSlot a x y t (b ∷ amounts) (u ∷ xs) (v ∷ ys) (s ∷ time_stamps)

-- A slot of an answer, with its token.
pub data IsSlot (token a x y t : Text)
    : List Text
      → List (List Text)
      → List (List Text)
      → List (List Text)
      → List (List Text)
      → Type 0 where
  first_row :
      {tokens row_a row_x row_y row_t : List Text} {amounts xs ys time_stamps : List (List Text)}
      → IsRowSlot a x y t row_a row_x row_y row_t
      → IsSlot token a x y t
          (token ∷ tokens)
          (row_a ∷ amounts)
          (row_x ∷ xs)
          (row_y ∷ ys)
          (row_t ∷ time_stamps)
  later_row :
      {other : Text} {tokens row_a row_x row_y row_t : List Text}
      {amounts xs ys time_stamps : List (List Text)}
      → IsSlot token a x y t tokens amounts xs ys time_stamps
      → IsSlot token a x y t
          (other ∷ tokens)
          (row_a ∷ amounts)
          (row_x ∷ xs)
          (row_y ∷ ys)
          (row_t ∷ time_stamps)

module _ (lib : Library) (nullifying_key : Text) (own : List ℤ) where
  -- What the set of commitments keeps, and that it has no repetitions.
  abbrev pub Keeps : List Text → List Text → Type 0
  Keeps before after =
      ((c : Text) → is_member c before ≡ true → is_member c after ≡ true)
      × (IsDistinct before → IsDistinct after)

  in_slot-Keeps :
      (token a x y t : Text) (spent : List Text) (r : Text × List Text)
      → in_slot lib nullifying_key own token a x y t spent ≡ ok r
      → Keeps spent (r.1)
  unfolding in_slot
  in_slot-Keeps token a x y t spent r e =
      let (n, parsed, later) = bind_ok (big_int a) _ e in
      elim (Bool-cases (is_zero n)) [
        | inl nothing ↦
            subst (λ (q : Text × List Text). Keeps spent (q.1)) (ok-injective (rw nothing at later))
              (λ c h. h, λ h. h)
        | inr amount ↦
            let (note, spent_note, made) =
              bind_ok (spend lib nullifying_key own token n x y t) _ (rw amount at later) in
            subst (λ (q : Text × List Text). Keeps spent (q.1)) (ok-injective made)
              (λ c h. is_member-kept (note.0) c spent h, add_member-IsDistinct (note.0) spent)
      ]

  in_row-Keeps :
      (token : Text) (amounts xs ys time_stamps spent : List Text) (r : List Text × List Text)
      → in_row lib nullifying_key own token amounts xs ys time_stamps spent ≡ ok r
      → Keeps spent (r.1)
  unfolding in_row
  in_row-Keeps token [] xs ys ts spent r e =
      subst (λ (q : List Text × List Text). Keeps spent (q.1)) (ok-injective e) (λ c h. h, λ h. h)
  in_row-Keeps token (a ∷ amounts) [] ys ts spent r e = cc
  in_row-Keeps token (a ∷ amounts) (x ∷ xs) [] ts spent r e = cc
  in_row-Keeps token (a ∷ amounts) (x ∷ xs) (y ∷ ys) [] spent r e = cc
  in_row-Keeps token (a ∷ amounts) (x ∷ xs) (y ∷ ys) (t ∷ ts) spent r e =
      let (slot, first, later) = bind_ok (in_slot lib nullifying_key own token a x y t spent) _ e in
      let (rest, run, made) =
        bind_ok (in_row lib nullifying_key own token amounts xs ys ts (slot.1)) _ later in
      let (kept, distinct) = in_slot-Keeps token a x y t spent slot first in
      let (kept_rest, distinct_rest) = in_row-Keeps token amounts xs ys ts (slot.1) rest run in
      subst (λ (q : List Text × List Text). Keeps spent (q.1)) (ok-injective made)
        (λ c h. kept_rest c (kept c h), λ h. distinct_rest (distinct h))

  pub in_rows-Keeps :
      (tokens : List Text) (amounts xs ys time_stamps : List (List Text)) (spent : List Text)
      (r : List (List Text) × List Text)
      → in_rows lib nullifying_key own tokens amounts xs ys time_stamps spent ≡ ok r
      → Keeps spent (r.1)
  unfolding in_rows
  in_rows-Keeps [] amounts xs ys ts spent r e =
      subst (λ (q : List (List Text) × List Text). Keeps spent (q.1)) (ok-injective e)
        (λ c h. h, λ h. h)
  in_rows-Keeps (token ∷ tokens) [] xs ys ts spent r e = cc
  in_rows-Keeps (token ∷ tokens) (a ∷ amounts) [] ys ts spent r e = cc
  in_rows-Keeps (token ∷ tokens) (a ∷ amounts) (x ∷ xs) [] ts spent r e = cc
  in_rows-Keeps (token ∷ tokens) (a ∷ amounts) (x ∷ xs) (y ∷ ys) [] spent r e = cc
  in_rows-Keeps (token ∷ tokens) (a ∷ amounts) (x ∷ xs) (y ∷ ys) (t ∷ ts) spent r e =
      let (same, later) = guard_ok (are_lengths_different (length a) x y t) rows_mismatch _ e in
      let (row, first, others) =
        bind_ok (in_row lib nullifying_key own token a x y t spent) _ later in
      let (rest, run, made) =
        bind_ok (in_rows lib nullifying_key own tokens amounts xs ys ts (row.1)) _ others in
      let (kept, distinct) = in_row-Keeps token a x y t spent row first in
      let (kept_rest, distinct_rest) = in_rows-Keeps tokens amounts xs ys ts (row.1) rest run in
      subst (λ (q : List (List Text) × List Text). Keeps spent (q.1)) (ok-injective made)
        (λ c h. kept_rest c (kept c h), λ h. distinct_rest (distinct h))

  -- The commitment of a slot's note is in the set after the slot, the row and the rows.
  in_slot-spends :
      (token a x y t : Text) (n : ℤ) (note : Text × Text) (spent : List Text) (r : Text × List Text)
      → big_int a ≡ ok n
      → is_zero n ≡ false
      → spend lib nullifying_key own token n x y t ≡ ok note
      → in_slot lib nullifying_key own token a x y t spent ≡ ok r
      → is_member (note.0) (r.1) ≡ true
  unfolding in_slot
  in_slot-spends token a x y t n note spent r parsed amount made e =
      subst (λ (q : Text × List Text). is_member (note.0) (q.1) ≡ true)
        (ok-injective (rw (parsed, amount, made) at e)) (is_member-add_member (note.0) spent)

  in_row-spends :
      (token a x y t : Text) (n : ℤ) (note : Text × Text) {amounts xs ys time_stamps : List Text}
      (spent : List Text) (r : List Text × List Text)
      → IsRowSlot a x y t amounts xs ys time_stamps
      → big_int a ≡ ok n
      → is_zero n ≡ false
      → spend lib nullifying_key own token n x y t ≡ ok note
      → in_row lib nullifying_key own token amounts xs ys time_stamps spent ≡ ok r
      → is_member (note.0) (r.1) ≡ true
  unfolding in_row
  in_row-spends token a x y t n note spent r (first_slot {amounts} {xs} {ys} {time_stamps}) parsed
        amount made e =
      let (slot, first, later) = bind_ok (in_slot lib nullifying_key own token a x y t spent) _ e in
      let (rest, run, built) =
        bind_ok (in_row lib nullifying_key own token amounts xs ys time_stamps (slot.1)) _ later in
      subst (λ (q : List Text × List Text). is_member (note.0) (q.1) ≡ true) (ok-injective built)
        ((in_row-Keeps token amounts xs ys time_stamps (slot.1) rest run).0 (note.0)
          (in_slot-spends token a x y t n note spent slot parsed amount made first))
  in_row-spends token a x y t n note spent r
        (later_slot {b} {u} {v} {s} {amounts} {xs} {ys} {time_stamps} h) parsed amount made e =
      let (slot, first, later) = bind_ok (in_slot lib nullifying_key own token b u v s spent) _ e in
      let (rest, run, built) =
        bind_ok (in_row lib nullifying_key own token amounts xs ys time_stamps (slot.1)) _ later in
      subst (λ (q : List Text × List Text). is_member (note.0) (q.1) ≡ true) (ok-injective built)
        (in_row-spends token a x y t n note (slot.1) rest h parsed amount made run)

  pub in_rows-spends :
      (token a x y t : Text) (n : ℤ) (note : Text × Text) {tokens : List Text}
      {amounts xs ys time_stamps : List (List Text)} (spent : List Text)
      (r : List (List Text) × List Text)
      → IsSlot token a x y t tokens amounts xs ys time_stamps
      → big_int a ≡ ok n
      → is_zero n ≡ false
      → spend lib nullifying_key own token n x y t ≡ ok note
      → in_rows lib nullifying_key own tokens amounts xs ys time_stamps spent ≡ ok r
      → is_member (note.0) (r.1) ≡ true
  unfolding in_rows
  in_rows-spends token a x y t n note spent r
        (first_row {tokens} {row_a} {row_x} {row_y} {row_t} {amounts} {xs} {ys} {time_stamps} h)
        parsed amount made e =
      let (same, later) =
        guard_ok (are_lengths_different (length row_a) row_x row_y row_t) rows_mismatch _ e in
      let (row, first, others) =
        bind_ok (in_row lib nullifying_key own token row_a row_x row_y row_t spent) _ later in
      let (rest, run, built) =
        bind_ok (in_rows lib nullifying_key own tokens amounts xs ys time_stamps (row.1)) _
          others in
      subst (λ (q : List (List Text) × List Text). is_member (note.0) (q.1) ≡ true)
        (ok-injective built)
        ((in_rows-Keeps tokens amounts xs ys time_stamps (row.1) rest run).0 (note.0)
          (in_row-spends token a x y t n note spent row h parsed amount made first))
  in_rows-spends token a x y t n note spent r
        (later_row {other} {tokens} {row_a} {row_x} {row_y} {row_t} {amounts} {xs} {ys}
          {time_stamps} h)
        parsed amount made e =
      let (same, later) =
        guard_ok (are_lengths_different (length row_a) row_x row_y row_t) rows_mismatch _ e in
      let (row, first, others) =
        bind_ok (in_row lib nullifying_key own other row_a row_x row_y row_t spent) _ later in
      let (rest, run, built) =
        bind_ok (in_rows lib nullifying_key own tokens amounts xs ys time_stamps (row.1)) _
          others in
      subst (λ (q : List (List Text) × List Text). is_member (note.0) (q.1) ≡ true)
        (ok-injective built)
        (in_rows-spends token a x y t n note (row.1) rest h parsed amount made run)
