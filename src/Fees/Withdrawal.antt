-- ===== src/Fees/Withdrawal.antt =====
-- The amount that a withdrawal pays out.
use hinkal_go.Prelude.{ℕ, ◌+◌, ◌-◌, ◌*◌, ◌/◌, ◌≤◌, ◌≡◌, arith, some, Text}
use native.Mathlib.Nat.{div-mul-le_self, lt-div-mul-add}
use hinkal_go.Prelude.Int.{pos, ◌+ℤ◌, ◌≤ℤ◌, neg_ℤ, +ℤ-pos, -ℤ-pos, quo-pos, pos_laws}
use hinkal_go.Fees.{calculate_total_fee, calculate_withdrawal_amount}
use hinkal_go.Fees.Gross.{charging, total_fee_lem}

unfoldable pub paid : ℕ → ℕ → ℕ → ℕ
paid p f r = (p - f) * 10000 / (10000 + r)

pub withdrawal_lem :
    (token : Text) (p f r : ℕ)
    → f ≤ p
    → calculate_withdrawal_amount (neg_ℤ (pos p)) (charging token f r) ≡ some (pos (paid p f r))
unfolding calculate_withdrawal_amount paid
withdrawal_lem token p f r le =
    let back : neg_ℤ (neg_ℤ (pos p)) ≡ pos p = ground arith in
    rw (back, calculate_withdrawal_amount)
      (simp (pos_laws, -ℤ-pos p f le)
        (ground (arith, quo-pos ((p - f) * 10000) (10000 + r) (omega arith))))

-- For a flat fee and a rate that are not negative and an amount that covers the flat fee, the
-- withdrawal amount is computed, with its own total fee it fits in the amount, and one unit more
-- with its total fee reaches the amount at least.
pub calculate_withdrawal_amount_fits :
    (token : Text) (p f r : ℕ)
    → f ≤ p
    → (w : ℕ) × (calculate_withdrawal_amount (neg_ℤ (pos p)) (charging token f r) ≡ some (pos w))
      × (pos w +ℤ calculate_total_fee (pos w) (charging token f r) ≤ℤ pos p)
      × (pos p ≤ℤ pos (w + 1) +ℤ calculate_total_fee (pos (w + 1)) (charging token f r))
unfolding paid
calculate_withdrawal_amount_fits token p f r le =
    let w : ℕ = paid p f r in
    let lo = div-mul-le_self ((p - f) * 10000) (10000 + r) in
    let hi = lt-div-mul-add {a = (p - f) * 10000} {b = 10000 + r} (omega arith) in
    (
      w,
      withdrawal_lem token p f r le,
      rw (total_fee_lem token w f r, +ℤ-pos w (f + w * r / 10000)) (omega (arith, lo)),
      rw (total_fee_lem token (w + 1) f r, +ℤ-pos (w + 1) (f + (w + 1) * r / 10000))
          (omega (arith, hi)),
    )
