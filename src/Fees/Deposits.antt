-- ===== src/Fees/Deposits.antt =====
-- The amounts to deposit for recipients, and what later withdrawals of them pay.
use hinkal_go.Prelude.{ℕ, ◌+◌, ◌≡◌, some, List, [], ◌∷◌, Text}
use hinkal_go.Prelude.Int.{ℤ, pos, ◌-ℤ◌, ◌≤ℤ◌, neg_ℤ}
use hinkal_go.Fees.{calculate_withdrawal_amount}
use hinkal_go.Fees.Gross.{charging, left_after_fee}

-- What a deposit `u` leaves when first the flat fee is taken off and then the variable fee on what
-- remains.
abbrev pub left_of_deposit : Text → ℕ → ℕ → ℤ → ℤ
left_of_deposit token f r u = left_after_fee (u -ℤ pos f) (charging token 0 r)

-- A deposit for a requested amount: the fees taken off one after the other leave the amount or one
-- unit more, and `CalculateWithdrawalAmount` pays at least the amount.
pub record IsDepositFor (token : Text) (f r amount u : ℕ) : Type 0 where
  pub paid_out : ℤ
  pub least : pos amount ≤ℤ left_of_deposit token f r (pos u)
  pub most : left_of_deposit token f r (pos u) ≤ℤ pos (amount + 1)
  pub paid_is : calculate_withdrawal_amount (neg_ℤ (pos u)) (charging token f r) ≡ some paid_out
  pub enough : pos amount ≤ℤ paid_out

-- A deposit for each amount.
abbrev pub AreDepositsFor : Text → ℕ → ℕ → List ℕ → List ℕ → Type 0
AreDepositsFor token f r [] [] = Unit
AreDepositsFor token f r [] (_ ∷ _) = ⊥
AreDepositsFor token f r (_ ∷ _) [] = ⊥
AreDepositsFor token f r (a ∷ amounts) (u ∷ us) =
    IsDepositFor token f r a u × AreDepositsFor token f r amounts us
