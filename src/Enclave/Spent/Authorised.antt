-- ===== src/Enclave/Spent/Authorised.antt =====
-- The notes of an accepted answer are among the notes that the caller authorised.
use mathlib.Core.Path.{subst}
use hinkal_go.Prelude.{
  ◌≡◌, sym, ◌∙◌, arith, true, false, not, ◌||◌, some, List, [], ◌∷◌, length, Text, text_eq, nat_eq,
  ◌==◌, ok, bind_ok, guard_ok, ok-injective, All,
}
use hinkal_go.Prelude.Sets.{is_member, IsDistinct, every_member}
use hinkal_go.Prelude.Int.{ℤ}
use hinkal_go.Enclave.{
  arrays_mismatch, different_notes, Library, big_int, strings_to_big_ints, is_zero,
}
use hinkal_go.Enclave.Inputs.{
  spend, in_rows, are_lengths_different, all_members, is_different, compute_in_nullifiers,
}
use hinkal_go.Enclave.Spent.{IsSlot, in_rows-Keeps, in_rows-spends}

all_members-All :
    (commitments spent : List Text)
    → all_members commitments spent ≡ true
    → All (λ c. is_member c spent ≡ true) commitments
all_members-All [] spent h = tt
all_members-All (c ∷ commitments) spent h =
    (ground arith, all_members-All commitments spent (ground arith))

-- A set that passes the comparison with distinct commitments holds no other commitment.
is_different-All :
    (authorised spent : List Text)
    → IsDistinct authorised
    → IsDistinct spent
    → is_different (some authorised) spent ≡ false
    → (c : Text) → is_member c spent ≡ true
    → is_member c authorised ≡ true
unfolding is_different
is_different-All authorised spent distinct set same =
    let size : length spent ≡ length authorised = ground arith in
    let members : all_members authorised spent ≡ true = ground arith in
    every_member authorised spent distinct set (all_members-All authorised spent members) size

-- Where the authorised commitments are distinct, every note of an accepted answer, of a slot whose
-- amount is not zero, has an authorised commitment.
pub compute_in_nullifiers-authorised :
    (lib : Library) (nullifying_key : Text) (public_key : Text × Text) (own : List ℤ)
    (tokens authorised : List Text) (amounts xs ys time_stamps rows : List (List Text))
    (token a x y t : Text) (n : ℤ) (note : Text × Text)
    → compute_in_nullifiers lib tokens amounts xs ys time_stamps nullifying_key public_key
        (some authorised)
      ≡ ok rows
    → IsDistinct authorised
    → strings_to_big_ints (public_key.0 ∷ public_key.1 ∷ []) ≡ ok own
    → IsSlot token a x y t tokens amounts xs ys time_stamps
    → big_int a ≡ ok n
    → is_zero n ≡ false
    → spend lib nullifying_key own token n x y t ≡ ok note
    → is_member (note.0) authorised ≡ true
unfolding compute_in_nullifiers
compute_in_nullifiers-authorised lib nk public_key own tokens authorised amounts xs ys ts rows token
      a x y t n note e distinct key slot parsed amount made =
    let (lengths, later) =
      guard_ok
        (not (length amounts == length tokens) || are_lengths_different (length tokens) xs ys ts)
        arrays_mismatch _ e in
    let (own_key, keys, run) =
      bind_ok (strings_to_big_ints (public_key.0 ∷ public_key.1 ∷ [])) _ later in
    let same_key : own_key ≡ own = ok-injective (sym keys ∙ key) in
    let (result, spends, compared) =
      bind_ok (in_rows lib nk own_key tokens amounts xs ys ts []) _ run in
    let (same, done) =
      guard_ok (is_different (some authorised) (result.1)) different_notes _ compared in
    let with_own : in_rows lib nk own tokens amounts xs ys ts [] ≡ ok result =
      subst (λ (k : List ℤ). in_rows lib nk k tokens amounts xs ys ts [] ≡ ok result) same_key
        spends in
    is_different-All authorised (result.1) distinct
      ((in_rows-Keeps lib nk own tokens amounts xs ys ts [] result with_own).1 tt) same (note.0)
      (in_rows-spends lib nk own token a x y t n note [] result slot parsed amount made with_own)
