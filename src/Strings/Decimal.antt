-- ===== src/Strings/Decimal.antt =====
-- Go's package `strconv`: decimal numbers.
pub mod RoundTrip
use pspxy.Base.{
  ℕ, zero, suc, ◌+◌, ◌-◌, ◌*◌, ◌^◌, ◌/◌, ◌%◌, ℤ, pos, negsuc, Bool, true, false, ◌&&◌, [], ◌∷◌,
  Option, none, some, if◌then◌else◌, ltb, leb, eqb, Text,
}

-- The digits of `strconv.ParseInt` in base ten.
digits_value : Text → ℕ → Option ℕ
digits_value [] n = some n
digits_value (c ∷ s) n =
    let rest = digits_value s (n * 10 + (c - b'0')) in
    if leb b'0' c && leb c b'9' then rest else none

parse_digits : Text → Option ℕ
unfolding digits_value
parse_digits [] = none
parse_digits (c ∷ s) = digits_value (c ∷ s) 0

negative : ℕ → ℤ
negative zero = pos 0
negative (suc n) = negsuc n

in_int64 : Bool → Option ℕ → Option ℤ
unfolding negative
in_int64 minus none = none
in_int64 true (some n) = if leb n (2 ^ 63) then some (negative n) else none
in_int64 false (some n) = if ltb n (2 ^ 63) then some (pos n) else none

-- strconv.ParseInt(s, 10, 64)
unfoldable pub parse_int : Text → Option ℤ
unfolding parse_digits in_int64
parse_int [] = none
parse_int (c ∷ s) =
    if eqb c b'+'
    then in_int64 false (parse_digits s)
    else if eqb c b'-'
    then in_int64 true (parse_digits s)
    else in_int64 false (parse_digits (c ∷ s))

-- strconv.Atoi, where `int` has 64 bits
abbrev pub atoi : Text → Option ℤ
atoi s = parse_int s

-- The digits of a number in front of `out`, as many as the fuel allows: 20 for 64 bits.
digits : ℕ → ℕ → Text → Text
digits zero n out = out
digits (suc fuel) n out =
    let c = b'0' + n % 10 in
    let rest = digits fuel (n / 10) (c ∷ out) in if ltb n 10 then c ∷ out else rest

-- strconv.FormatInt(i, 10)
unfoldable pub format_int : ℤ → Text
unfolding digits
format_int (pos n) = digits 20 n []
format_int (negsuc n) = b'-' ∷ digits 20 (suc n) []
