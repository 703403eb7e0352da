-- ===== src/Numbers/RoundTrip.antt =====
-- What is printed is parsed back: `ParseBigInt` of `ToBeHex` and of `String`.
use mathlib.Core.Path.{subst}
use native.Mathlib.Nat.{div-add-mod', mod-lt, div-lt_self, div-le_self}
use hinkal_go.Prelude.{
  length-append, ℕ, zero, suc, ◌+◌, ◌*◌, ◌/◌, ◌%◌, ◌≤◌, ◌<◌, ◌≡◌, refl, ap, ◌∙◌, arith, true, false,
  ◌||◌, Option, none, some, Option-cases, some-injective, [], ◌∷◌, ◌++◌, length, Text, nat_eq, ltb,
  ◌==◌, if◌then◌else◌, All, Bool-cases, inl, inr,
}
use hinkal_go.Prelude.Int.{ℤ, pos, negsuc, neg_ℤ}
use hinkal_go.PreTransaction.{
  is_space, trim_left, trim_right, digit, digits_value, signed, set_string, strip_hex,
  parse_trimmed, parse_big_int,
}
use hinkal_go.Numbers.{digit_char, digits_text, nat_text, int_text, to_be_hex}

digit-digit_char : (d : ℕ) → d < 16 → digit (digit_char d) ≡ some d
unfolding digit
digit-digit_char d h = ground arith

-- The character of a digit below 16.
abbrev IsDigit : ℕ → Type 0
IsDigit c = (d : ℕ) × (d < 16) × (c ≡ digit_char d)

not_space : (c : ℕ) → IsDigit c → is_space c ≡ false
not_space c (d, small, e) = rw e (ground arith)

not_mark :
    (c : ℕ)
    → IsDigit c
    → ((c == 43) ≡ false) × ((c == 45) ≡ false) × (((c == 120) || (c == 88)) ≡ false)
not_mark c (d, small, e) = rw e (ground arith)

All-append : (xs ys : Text) → All IsDigit xs → All IsDigit ys → All IsDigit (xs ++ ys)
All-append [] ys h hs = hs
All-append (x ∷ xs) ys (h, h') hs = (h, All-append xs ys h' hs)

trim_right-keep :
    (c : ℕ) (s t : Text) → is_space c ≡ false → trim_right s ≡ t → trim_right (c ∷ s) ≡ c ∷ t
unfolding trim_right
trim_right-keep c s t solid e = rw (solid, e) (ground arith)

trim_right-digits : (s : Text) → All IsDigit s → trim_right s ≡ s
unfolding trim_right
trim_right-digits [] h = refl
trim_right-digits (c ∷ s) (h, hs) = trim_right-keep c s s (not_space c h) (trim_right-digits s hs)

nothing : {A : Type 0} (a : A) → Path (Option A) none (some a) → ⊥
nothing a e = cc

smaller : (base fuel n : ℕ) → 2 ≤ base → n ≤ suc fuel → n / base ≤ fuel
smaller base fuel zero two enough = let zero_div = div-le_self 0 base in omega arith
smaller base fuel (suc n) two enough =
    let less : suc n / base < suc n = div-lt_self (omega arith) (omega arith) in omega arith

-- One digit more behind a text whose value is known.
digits_value-append :
    (base acc v c d : ℕ) (xs : Text)
    → digits_value base acc xs ≡ some v
    → digit c ≡ some d
    → d < base
    → digits_value base acc (xs ++ c ∷ []) ≡ some (v * base + d)
unfolding digits_value
digits_value-append base acc v c d [] e is below =
    let same = some-injective e in
    subst
      (λ (w : ℕ).
        elim (digit c) [ none ↦ none | some k ↦ if ltb k base then some (acc * base + k) else none ]
        ≡ some (w * base + d))
      same (rw is (ground arith))
digits_value-append base acc v c d (x ∷ xs) e next below = elim (Option-cases (digit x)) [
  | inl missing ↦ absurd (nothing v (rw (digits_value, missing) at e))
  | inr (k, is) ↦ elim (Bool-cases (ltb k base)) [
    | inl fits ↦
        rw (digits_value, is, fits)
          (digits_value-append base (acc * base + k) v c d xs (rw (digits_value, is, fits) at e)
            next below)
    | inr over ↦ absurd (nothing v (rw (digits_value, is, over) at e))
  ]
]

one_digit : (base n : ℕ) → n < base → base ≤ 16 → digits_value base 0 (digit_char n ∷ []) ≡ some n
unfolding digits_value
one_digit base n below small =
    digits_value-append base 0 0 (digit_char n) n [] refl (digit-digit_char n (omega arith)) below
    ∙ ap some (omega arith)

-- The digits of a number, as many as it needs, have its value and are below the base.
digits_text-lem :
    (base fuel n : ℕ)
    → 2 ≤ base
    → base ≤ 16
    → n ≤ fuel
    → (digits_value base 0 (digits_text fuel base n) ≡ some n)
      × All IsDigit (digits_text fuel base n)
      × (1 ≤ length (digits_text fuel base n))
unfolding digits_text
digits_text-lem base zero n two small enough =
    (one_digit base n (omega arith) small, ((n, omega arith, refl), tt), omega arith)
digits_text-lem base (suc fuel) n two small enough = elim (Bool-cases (ltb n base)) [
  | inl below ↦
      let lt : n < base = ground arith in
      rw below (one_digit base n lt small, ((n, omega arith, refl), tt), omega arith)
  | inr above ↦
      let le : base ≤ n = ground arith in
      let (value, digits, some_digit) =
        digits_text-lem base fuel (n / base) two small (smaller base fuel n two enough) in
      let last : n % base < base = mod-lt n (omega arith) in
      rw above (
        digits_value-append base 0 (n / base) (digit_char (n % base)) (n % base)
              (digits_text fuel base (n / base)) value (digit-digit_char (n % base) (omega arith))
              last
            ∙ ap some (div-add-mod' n base),
        All-append (digits_text fuel base (n / base)) (digit_char (n % base) ∷ []) digits
            ((n % base, omega arith, refl), tt),
        omega
            (arith, length-append (digits_text fuel base (n / base)) (digit_char (n % base) ∷ [])),
      )
]

-- A text of digits that is not empty, in base 16 after the mark, and in base 10 alone.
set_string-digits :
    (base : ℕ) (s : Text)
    → 1 ≤ length s
    → All IsDigit s
    → set_string base s ≡ signed pos (digits_value base 0 s)
unfolding set_string
set_string-digits base [] some_digit h = absurd (omega arith)
set_string-digits base (c ∷ s) some_digit (h, hs) =
    let (plus, minus, x) = not_mark c h in rw (plus, minus) refl

strip_hex-digits : (s : Text) → All IsDigit s → strip_hex s ≡ none
unfolding strip_hex
strip_hex-digits [] h = refl
strip_hex-digits (a ∷ []) h = refl
strip_hex-digits (a ∷ b ∷ s) (h, (k, hs)) =
    let (plus, minus, x) = not_mark b k in rw x (ground arith)

trim_left-digits : (s : Text) → All IsDigit s → trim_left s ≡ s
unfolding trim_left
trim_left-digits [] h = refl
trim_left-digits (c ∷ s) (h, hs) = rw (not_space c h) refl

-- Digits stay as they are when spaces are trimmed.
parse_big_int-trimmed :
    (s : Text) → trim_left s ≡ s → trim_right s ≡ s → parse_big_int s ≡ parse_trimmed s
unfolding parse_big_int
parse_big_int-trimmed s left right =
    ap (λ (t : Text). parse_trimmed (trim_right t)) left ∙ ap parse_trimmed right

parse_big_int-digits :
    (s : Text) (n : ℕ)
    → 1 ≤ length s
    → All IsDigit s
    → digits_value 10 0 s ≡ some n
    → parse_big_int s ≡ some (pos n)
unfolding parse_trimmed
parse_big_int-digits s n some_digit h e =
    parse_big_int-trimmed s (trim_left-digits s h) (trim_right-digits s h)
    ∙ rw (parse_trimmed, strip_hex-digits s h)
        (set_string-digits 10 s some_digit h ∙ ap (signed pos) e)

hex_value :
    (s : Text) (n : ℕ)
    → set_string 16 s ≡ some (pos n)
    → parse_trimmed (48 ∷ 120 ∷ s) ≡ some (pos n)
unfolding parse_trimmed strip_hex
hex_value s n e = rw (parse_trimmed, strip_hex, e) refl

parse_big_int-hex :
    (s : Text) (n : ℕ)
    → 1 ≤ length s
    → All IsDigit s
    → digits_value 16 0 s ≡ some n
    → parse_big_int (48 ∷ 120 ∷ s) ≡ some (pos n)
unfolding parse_trimmed strip_hex trim_left trim_right
parse_big_int-hex s n some_digit h e =
    parse_big_int-trimmed (48 ∷ 120 ∷ s) refl (
      trim_right-keep 48 (120 ∷ s) (120 ∷ s) refl
        (trim_right-keep 120 s s refl (trim_right-digits s h)))
    ∙ hex_value s n (set_string-digits 16 s some_digit h ∙ ap (signed pos) e)

-- Digits after the sign.
parse_big_int-negative :
    (s : Text) (n : ℕ)
    → 1 ≤ length s
    → All IsDigit s
    → digits_value 10 0 s ≡ some n
    → parse_big_int (45 ∷ s) ≡ some (neg_ℤ (pos n))
unfolding parse_trimmed strip_hex trim_left trim_right set_string
parse_big_int-negative [] n some_digit h e = absurd (omega arith)
parse_big_int-negative (c ∷ s) n some_digit h e =
    parse_big_int-trimmed (45 ∷ c ∷ s) refl
      (trim_right-keep 45 (c ∷ s) (c ∷ s) refl (trim_right-digits (c ∷ s) h))
    ∙ (let sign_only : ltb 0 (suc (length s)) ≡ true = ground arith in rw (e, sign_only) refl)

-- `ParseBigInt` of what `ToBeHex` prints of a number that is not negative is the number.
pub parse_big_int-to_be_hex : (n : ℕ) → parse_big_int (to_be_hex n) ≡ some (pos n)
unfolding to_be_hex nat_text digits_value digit
parse_big_int-to_be_hex n =
    let (value, digits, some_digit) =
      digits_text-lem 16 n n (omega arith) (omega arith) (omega arith) in
    elim (Bool-cases (length (digits_text n 16 n) % 2 == 1)) [
      | inl odd ↦ rw odd (
          parse_big_int-hex (48 ∷ digits_text n 16 n) n (omega arith)
            ((0, omega arith, refl), digits) value)
      | inr even ↦ rw even (parse_big_int-hex (digits_text n 16 n) n some_digit digits value)
    ]

neg_suc : (n : ℕ) → neg_ℤ (pos (suc n)) ≡ negsuc n
neg_suc n = ground arith

-- `ParseBigInt` of what `String` prints of an integer, negative ones included, is the integer.
pub parse_big_int-int_text : (a : ℤ) → parse_big_int (int_text a) ≡ some a
unfolding int_text nat_text
parse_big_int-int_text (pos n) =
    let (value, digits, some_digit) =
      digits_text-lem 10 n n (omega arith) (omega arith) (omega arith) in
    parse_big_int-digits (digits_text n 10 n) n some_digit digits value
parse_big_int-int_text (negsuc n) =
    let (value, digits, some_digit) =
      digits_text-lem 10 (suc n) (suc n) (omega arith) (omega arith) (omega arith) in
    parse_big_int-negative (digits_text (suc n) 10 (suc n)) (suc n) some_digit digits value
    ∙ ap some (neg_suc n)
