-- ===== src/Enclave/Compare.antt =====
-- The comparison of numbers, and the texts that are parsed to them.
use hinkal_go.Prelude.{
  ◌≡◌, ◌≢◌, ap, arith, true, false, not, Option, Bool-cases, inl, inr, ok, or_err,
}
use hinkal_go.Prelude.Int.{ℤ, beq_ℤ}
use hinkal_go.Numbers.{int_text}
use hinkal_go.Numbers.RoundTrip.{parse_big_int-int_text}
use hinkal_go.Enclave.{not_a_number, big_int}

pub beq_ℤ-eq : (a b : ℤ) → not (beq_ℤ a b) ≡ false → a ≡ b
beq_ℤ-eq a b h = ground arith

pub beq_ℤ-refl : (a : ℤ) → not (beq_ℤ a a) ≡ false
beq_ℤ-refl a = ground arith

pub beq_ℤ-differ : (a b : ℤ) → a ≢ b → not (beq_ℤ a b) ≡ true
beq_ℤ-differ a b h = elim (Bool-cases (beq_ℤ a b)) [
  | inl same ↦ absurd (h (beq_ℤ-eq a b (ap not same)))
  | inr other ↦ ap not other
]

pub big_int-int_text : (a : ℤ) → big_int (int_text a) ≡ ok a
unfolding big_int
big_int-int_text a = ap (λ (o : Option ℤ). or_err o not_a_number) (parse_big_int-int_text a)
