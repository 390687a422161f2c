-- ===== src/Go/Strconv.antt =====
-- strconv: `Itoa` and `%d`, and `ParseInt(s, 10, 64)`, which is `Atoi` where int has 64 bits.
pub mod Laws
use fluffy_dollop.Base.{
  ℕ, zero, suc, ◌+◌, ◌-◌, ◌*◌, ◌/◌, ◌%◌, ◌^◌, Bool, ◌&&◌, Option, none, some, List, [], ◌∷◌, ◌++◌,
  ltb, leb, ◌==◌, if◌then◌else◌,
}
use fluffy_dollop.Base.Int.{ℤ, pos, negsuc}
use fluffy_dollop.Base.Text.{Text}

-- The digits of a number, with more fuel than digits.
unfoldable pub format_from : ℕ → ℕ → Text
format_from zero n = []
format_from (suc fuel) n =
    let high = format_from fuel (n / 10) in
    if ltb n 10 then (48 + n) ∷ [] else high ++ (48 + n % 10) ∷ []

unfoldable pub format_ℕ : ℕ → Text
unfolding format_from
format_ℕ n = format_from (suc n) n

-- `%d`.
unfoldable pub format_int : ℤ → Text
unfolding format_ℕ
format_int (pos n) = format_ℕ n
format_int (negsuc n) = b'-' ∷ format_ℕ (suc n)

abbrev pub is_digit : ℕ → Bool
is_digit c = leb b'0' c && leb c b'9'

unfoldable pub parse_digits : ℕ → Text → Option ℕ
parse_digits acc [] = some acc
parse_digits acc (c ∷ s) =
    let rest = parse_digits (acc * 10 + (c - 48)) s in if is_digit c then rest else none

unfoldable pub parse_unsigned : Text → Option ℕ
unfolding parse_digits
parse_unsigned [] = none
parse_unsigned (c ∷ s) = parse_digits 0 (c ∷ s)

abbrev pub negate_ℕ : ℕ → ℤ
negate_ℕ zero = pos 0
negate_ℕ (suc k) = negsuc k

-- The value, if an int64 holds it.
abbrev pub positive : Option ℕ → Option ℤ
positive none = none
positive (some n) = if ltb n (2 ^ 63) then some (pos n) else none

abbrev pub negative : Option ℕ → Option ℤ
negative none = none
negative (some n) = if leb n (2 ^ 63) then some (negate_ℕ n) else none

unfoldable pub parse_int : Text → Option ℤ
unfolding parse_unsigned
parse_int [] = none
parse_int (c ∷ s) =
    if c == b'-'
    then negative (parse_unsigned s)
    else (if c == b'+' then positive (parse_unsigned s) else positive (parse_unsigned (c ∷ s)))
