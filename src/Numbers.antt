-- ===== src/Numbers.antt =====
-- Printing of numbers: `ToBeHex` of internal/functions/utils/bigint.go, and the `Text` and `String`
-- methods of Go's `big.Int` that the repository calls on its results.
pub mod RoundTrip
mod Tests
use hinkal_go.Prelude.{
  ℕ, zero, suc, ◌+◌, ◌-◌, ◌/◌, ◌%◌, List, [], ◌∷◌, ◌++◌, length, Text, nat_eq, ltb, ◌==◌,
  if◌then◌else◌,
}
use hinkal_go.Prelude.Int.{ℤ, pos, negsuc}

-- The character of a digit below 16.
abbrev pub digit_char : ℕ → ℕ
digit_char d = if ltb d 10 then 48 + d else 87 + d

-- The digits of a number in a base of at least two, the most significant first. The first argument
-- bounds the number of digits: the number itself is enough.
unfoldable pub digits_text : ℕ → ℕ → ℕ → Text
digits_text zero base n = digit_char n ∷ []
digits_text (suc fuel) base n =
    let front = digits_text fuel base (n / base) in
    if ltb n base then digit_char n ∷ [] else front ++ digit_char (n % base) ∷ []

-- `n.Text(base)` of a number that is not negative
unfoldable pub nat_text : ℕ → ℕ → Text
unfolding digits_text
nat_text base n = digits_text n base n

-- `n.String()`
unfoldable pub int_text : ℤ → Text
unfolding nat_text
int_text (pos n) = nat_text 10 n
int_text (negsuc n) = 45 ∷ nat_text 10 (suc n)

-- `ToBeHex` of a number that is not negative
unfoldable pub to_be_hex : ℕ → Text
unfolding nat_text
to_be_hex n =
    let s = nat_text 16 n in
    let padded = if length s % 2 == 1 then 48 ∷ s else s in 48 ∷ 120 ∷ padded
