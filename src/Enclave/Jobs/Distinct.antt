-- ===== src/Enclave/Jobs/Distinct.antt =====
-- No job that withdraws stuck notes spends a note of another.
use hinkal_go.Prelude.{
  ◌≡◌, refl, sym, ap, ◌∙◌, arith, Bool, true, false, not, ◌||◌, List, [], ◌∷◌, ◌++◌, select, Text,
  text_eq, text_beq_iff, ◌==◌, ok, bind_ok, guard_ok, ok-injective, Bool-cases, All, inl, inr,
}
use hinkal_go.Prelude.Sets.{is_member, IsDistinct}
use hinkal_go.Enclave.{repeated_note, Library, at, zero_text}
use hinkal_go.Enclave.Request.{Preimage}
use hinkal_go.Enclave.Stuck.{
  StuckWithdraw, no_repeated_notes, verify_stuck_withdraw_job, verify_jobs,
}
use hinkal_go.Enclave.Jobs.{job_nullifiers, verify_stuck_withdraw_job-facts}

-- The nullifiers of a row, without the empty slots.
abbrev pub spent_nullifiers : List Text → List Text
spent_nullifiers = select (λ n. not (n == zero_text))

-- What the loop over a row adds to the set.
abbrev Adds : List Text → List Text → List Text → Type 0
Adds row spent after =
    IsDistinct (spent_nullifiers row)
    × All (λ c. is_member c spent ≡ false) (spent_nullifiers row)
    × ((c : Text) → is_member c after ≡ (is_member c spent || is_member c (spent_nullifiers row)))

-- Elements that are not in a set with one more are not that one.
not_among :
    (n : Text) (xs spent : List Text)
    → All (λ c. is_member c (n ∷ spent) ≡ false) xs
    → (is_member n xs ≡ false) × All (λ c. is_member c spent ≡ false) xs
not_among n [] spent h = (refl, tt)
not_among n (x ∷ xs) spent (new, h) =
    let (rest, fresh) = not_among n xs spent h in
    (
      ground (arith, text_beq_iff n x, text_beq_iff x n),
      ((let old : is_member x spent ≡ false = ground arith in old), fresh),
    )

reorder : (a b c d : Bool) → a ≡ ((b || c) || d) → a ≡ (c || (b || d))
reorder a true true d e = e
reorder a true false d e = e
reorder a false true d e = e
reorder a false false d e = e

no_repeated_notes-Adds :
    (row spent after : List Text) → no_repeated_notes row spent ≡ ok after → Adds row spent after
unfolding no_repeated_notes
no_repeated_notes-Adds [] spent after e =
    (tt, tt, λ c. ap (is_member c) (sym (ok-injective e)) ∙ ground arith)
no_repeated_notes-Adds (n ∷ row) spent after e = elim (Bool-cases (n == zero_text)) [
  | inl empty ↦
      rw empty (no_repeated_notes-Adds row spent after (rw (no_repeated_notes, empty) at e))
  | inr used ↦
      let (new, later) =
        guard_ok (is_member n spent) repeated_note _ (rw (no_repeated_notes, used) at e) in
      let (distinct, fresh, members) = no_repeated_notes-Adds row (n ∷ spent) after later in
      let (apart, rest) = not_among n (spent_nullifiers row) spent fresh in
      rw used (
        (apart, distinct),
        (new, rest),
        λ c.
            reorder (is_member c after) (n == c) (is_member c spent)
              (is_member c (spent_nullifiers row)) (members c),
      )
]

is_member-append :
    (c : Text) (xs ys : List Text) → is_member c (xs ++ ys) ≡ (is_member c xs || is_member c ys)
is_member-append c [] ys = refl
is_member-append c (x ∷ xs) ys = ground (arith, is_member-append c xs ys)

join_apart :
    (xs ys : List Text)
    → IsDistinct xs
    → IsDistinct ys
    → All (λ c. is_member c xs ≡ false) ys
    → IsDistinct (xs ++ ys)
join_apart [] ys hx hy apart = hy
join_apart (x ∷ xs) ys (new, hx) hy apart =
    let (missing, rest) = not_among x ys xs apart in
    (ground (arith, is_member-append x xs ys), join_apart xs ys hx hy rest)

join_old :
    (before xs ys : List Text)
    → All (λ c. is_member c before ≡ false) xs
    → All (λ c. is_member c before ≡ false) ys
    → All (λ c. is_member c before ≡ false) (xs ++ ys)
join_old before [] ys hx hy = hy
join_old before (x ∷ xs) ys (h, hx) hy = (h, join_old before xs ys hx hy)

-- What is not in a set after some were added was not in it before, and is none of those.
not_added :
    (before xs after : List Text) (ys : List Text)
    → ((c : Text) → is_member c after ≡ (is_member c before || is_member c xs))
    → All (λ c. is_member c after ≡ false) ys
    → All (λ c. is_member c before ≡ false) ys × All (λ c. is_member c xs ≡ false) ys
not_added before xs after [] members h = (tt, tt)
not_added before xs after (y ∷ ys) members (h, hs) =
    let (old, apart) = not_added before xs after ys members hs in
    let was_old : is_member y before ≡ false = ground (arith, members y) in
    let was_apart : is_member y xs ≡ false = ground (arith, members y) in
    ((was_old, old), (was_apart, apart))

module _ (lib : Library) (w : StuckWithdraw) where
  -- The nullifiers that jobs spend, one job after another.
  pub data IsJobsNullifiers : List Preimage → List Text → Type 0 where
    no_job : IsJobsNullifiers [] []
    one_job :
        {job : Preimage} {jobs : List Preimage} {rows : List (List Text)} {row rest : List Text}
        → job_nullifiers lib w job ≡ ok rows
        → at rows 0 ≡ ok row
        → IsJobsNullifiers jobs rest
        → IsJobsNullifiers (job ∷ jobs) (spent_nullifiers row ++ rest)

  -- Accepted jobs spend distinct nullifiers, none of them spent before.
  verify_jobs-fresh :
      (jobs : List Preimage) (before after nullifiers : List Text)
      → verify_jobs lib w jobs before ≡ ok after
      → IsJobsNullifiers jobs nullifiers
      → IsDistinct nullifiers × All (λ c. is_member c before ≡ false) nullifiers
  unfolding verify_jobs
  verify_jobs-fresh [] before after nullifiers e no_job = (tt, tt)
  verify_jobs-fresh (job ∷ jobs) before after nullifiers e
        (one_job {rows} {row} {rest} rows_are row_is more) =
      let (spent, first, later) = bind_ok (verify_stuck_withdraw_job lib w job before) _ e in
      let facts = verify_stuck_withdraw_job-facts lib w job before spent first in
      let same_rows : facts.rows ≡ rows = ok-injective (sym facts.rows_are ∙ rows_are) in
      let same_row : facts.row ≡ row =
        ok-injective
          (sym facts.row_is ∙ ap (λ (r : List (List Text)). at r 0) same_rows ∙ row_is) in
      let (distinct, old, members) =
        no_repeated_notes-Adds row before spent
          (ap (λ (r : List Text). no_repeated_notes r before) (sym same_row) ∙ facts.adds) in
      let (rest_distinct, fresh) = verify_jobs-fresh jobs spent after rest later more in
      let (before_rest, apart) = not_added before (spent_nullifiers row) spent rest members fresh in
      (
        join_apart (spent_nullifiers row) rest distinct rest_distinct apart,
        join_old before (spent_nullifiers row) rest old before_rest,
      )

  -- The nullifiers that accepted jobs spend, without the empty slots, are distinct within a job and
  -- across the jobs.
  pub verify_jobs-IsDistinct :
      (jobs : List Preimage) (after nullifiers : List Text)
      → verify_jobs lib w jobs [] ≡ ok after
      → IsJobsNullifiers jobs nullifiers
      → IsDistinct nullifiers
  verify_jobs-IsDistinct jobs after nullifiers e spends =
      (verify_jobs-fresh jobs [] after nullifiers e spends).0
