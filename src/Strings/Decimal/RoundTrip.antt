-- ===== src/Strings/Decimal/RoundTrip.antt =====
-- What `format_int` writes, `parse_int` reads, for numbers of 64 bits from 0 on.
use pspxy.Base.{
  ◌≡◌, refl, ℕ, zero, suc, ◌+◌, ◌*◌, ◌/◌, ◌%◌, ◌^◌, ◌<◌, ◌≤◌, pos, false, [], ◌∷◌, some, Text,
  arith, is_space, Bool-cases, inl, inr, ltb, eqb, All,
}
use pspxy.Strings.{trim_space, is_empty}
use pspxy.Strings.Trim.{Bare, trim_space-Bare}
use pspxy.Strings.Decimal.{digits_value, parse_digits, in_int64, parse_int, digits, format_int}

-- The numbers that so many digits hold.
pow10 : ℕ → ℕ
pow10 zero = 1
pow10 (suc k) = 10 * pow10 k

digits_value-digits :
    (fuel n : ℕ) (out : Text)
    → n < pow10 fuel
    → 0 < fuel
    → digits_value (digits fuel n out) 0 ≡ digits_value out n
unfolding digits_value digits pow10
digits_value-digits zero n out h f = absurd (omega arith)
digits_value-digits (suc zero) n out h f = ground arith
digits_value-digits (suc (suc fuel)) n out h f = elim (Bool-cases (ltb n 10)) [
  | inl e ↦ rw e (ground arith)
  | inr e ↦
      let rest =
        digits_value-digits (suc fuel) (n / 10) ((b'0' + n % 10) ∷ out) (omega arith)
          (omega arith) in
      rw e (rw rest (ground arith))
]

abbrev Digit : ℕ → Type 0
Digit c = (b'0' ≤ c) × (c ≤ b'9')

digits-Digit : (fuel n : ℕ) (out : Text) → All Digit out → All Digit (digits fuel n out)
unfolding digits
digits-Digit zero n out a = a
digits-Digit (suc fuel) n out a =
    let d : Digit (b'0' + n % 10) = (omega arith, omega arith) in
    elim (Bool-cases (ltb n 10)) [
      | inl e ↦ rw e (d, a)
      | inr e ↦ rw e (digits-Digit fuel (n / 10) ((b'0' + n % 10) ∷ out) (d, a))
    ]

digits-filled :
    (fuel n : ℕ) (out : Text) → is_empty out ≡ false → is_empty (digits fuel n out) ≡ false
unfolding digits
digits-filled zero n out h = h
digits-filled (suc fuel) n out h = elim (Bool-cases (ltb n 10)) [
  | inl e ↦ rw e refl
  | inr e ↦ rw e (digits-filled fuel (n / 10) ((b'0' + n % 10) ∷ out) refl)
]

digits-first : (fuel n : ℕ) → is_empty (digits (suc fuel) n []) ≡ false
unfolding digits
digits-first fuel n = elim (Bool-cases (ltb n 10)) [
  | inl e ↦ rw e refl
  | inr e ↦ rw e (digits-filled fuel (n / 10) ((b'0' + n % 10) ∷ []) refl)
]

parse_int-digits :
    (s : Text) (n : ℕ)
    → All Digit s
    → is_empty s ≡ false
    → digits_value s 0 ≡ some n
    → n < 2 ^ 63
    → parse_int s ≡ some (pos n)
unfolding parse_int parse_digits in_int64
parse_int-digits [] n a f h w = cc
parse_int-digits (c ∷ s) n a f h w =
    let plus : eqb c b'+' ≡ false = ground (arith, a.0) in
    let minus : eqb c b'-' ≡ false = ground (arith, a.0) in rw (plus, minus, h) (ground arith)

Digit-Bare : (s : Text) → All Digit s → Bare s
unfolding is_space
Digit-Bare [] a = tt
Digit-Bare (c ∷ s) a = (ground (arith, a.0), Digit-Bare s a.1)

-- Reading what was written gives the number back.
pub parse_int-format_int : (n : ℕ) → n < 2 ^ 63 → parse_int (format_int (pos n)) ≡ some (pos n)
unfolding format_int digits_value
parse_int-format_int n h =
    let fits : n < pow10 20 = unfold pow10 in omega arith in
    let value = digits_value-digits 20 n [] fits (omega arith) in
    parse_int-digits (digits 20 n []) n (digits-Digit 20 n [] tt) (digits-first 19 n) value h

pub trim_space-format_int : (n : ℕ) → trim_space (format_int (pos n)) ≡ format_int (pos n)
unfolding format_int
trim_space-format_int n =
    trim_space-Bare (digits 20 n []) (Digit-Bare (digits 20 n []) (digits-Digit 20 n [] tt))
