-- ===== src/Go/Strconv/Laws.antt =====
-- Printing a number and parsing it back; so numbers with one print are one.
use fluffy_dollop.Base.{
  ℕ, zero, suc, ◌+◌, ◌-◌, ◌*◌, ◌/◌, ◌%◌, ◌≤◌, ◌<◌, ◌≡◌, sym, ap, ◌∙◌, inl, inr, some, [], ◌∷◌, ◌++◌,
  arith, ltb, Bool-cases,
}
use fluffy_dollop.Base.Int.{ℤ, pos, negsuc, IsInt64}
use fluffy_dollop.Base.Text.{Text}
use fluffy_dollop.Go.Strconv.{
  format_from, format_ℕ, format_int, parse_digits, parse_unsigned, parse_int, positive,
}

parse_digits-append :
    (acc v : ℕ) (s : Text) (d : ℕ)
    → parse_digits acc s ≡ some v
    → d < 10
    → parse_digits acc (s ++ (48 + d) ∷ []) ≡ some (v * 10 + d)
unfolding parse_digits
parse_digits-append acc v [] d h lt = ground arith
parse_digits-append acc v (c ∷ s) d h lt =
    ground (arith, parse_digits-append (acc * 10 + (c - 48)) v s d)

parse_digits-format_from : (fuel n : ℕ) → n < fuel → parse_digits 0 (format_from fuel n) ≡ some n
unfolding parse_digits format_from
parse_digits-format_from zero n h = elim h [ ]
parse_digits-format_from (suc fuel) n h = elim (Bool-cases (ltb n 10)) [
  | inl small ↦ rw small (ground arith)
  | inr large ↦ rw large (
      parse_digits-append 0 (n / 10) (format_from fuel (n / 10)) (n % 10)
        (parse_digits-format_from fuel (n / 10) (ground arith)) (omega arith)
      ∙ ap some (omega arith))
]

-- A print begins with a digit.
abbrev StartsWithDigit : Text → Type 0
StartsWithDigit [] = ⊥
StartsWithDigit (c ∷ s) = (48 ≤ c) × (c ≤ 57)

StartsWithDigit-append : (s t : Text) → StartsWithDigit s → StartsWithDigit (s ++ t)
StartsWithDigit-append [] t h = elim h [ ]
StartsWithDigit-append (c ∷ s) t h = h

format_from-StartsWithDigit : (fuel n : ℕ) → n < fuel → StartsWithDigit (format_from fuel n)
unfolding format_from
format_from-StartsWithDigit zero n h = elim h [ ]
format_from-StartsWithDigit (suc fuel) n h = elim (Bool-cases (ltb n 10)) [
  | inl small ↦ rw small (ground arith)
  | inr large ↦ rw large (
      StartsWithDigit-append (format_from fuel (n / 10)) _
        (format_from-StartsWithDigit fuel (n / 10) (ground arith)))
]

parse_unsigned_of_digit :
    (s : Text) (n : ℕ) → StartsWithDigit s → parse_digits 0 s ≡ some n → parse_unsigned s ≡ some n
unfolding parse_unsigned
parse_unsigned_of_digit [] n d h = elim d [ ]
parse_unsigned_of_digit (c ∷ s) n d h = h

pub parse_unsigned-format_ℕ : (n : ℕ) → parse_unsigned (format_ℕ n) ≡ some n
unfolding format_ℕ
parse_unsigned-format_ℕ n =
    parse_unsigned_of_digit (format_from (suc n) n) n
      (format_from-StartsWithDigit (suc n) n (omega arith))
      (parse_digits-format_from (suc n) n (omega arith))

parse_int_of_digit : (s : Text) → StartsWithDigit s → parse_int s ≡ positive (parse_unsigned s)
unfolding parse_int
parse_int_of_digit [] d = elim d [ ]
parse_int_of_digit (c ∷ s) d = ground arith

format_ℕ-StartsWithDigit : (n : ℕ) → StartsWithDigit (format_ℕ n)
unfolding format_ℕ
format_ℕ-StartsWithDigit n = format_from-StartsWithDigit (suc n) n (omega arith)

-- An int64 survives printing and parsing.
pub parse_int-format_int : (z : ℤ) → IsInt64 z → parse_int (format_int z) ≡ some z
unfolding format_int parse_int
parse_int-format_int (pos n) h =
    parse_int_of_digit (format_ℕ n) (format_ℕ-StartsWithDigit n)
    ∙ rw (parse_unsigned-format_ℕ n) (ground arith)
parse_int-format_int (negsuc n) h = rw (parse_unsigned-format_ℕ (suc n)) (ground arith)

-- So two int64 with one print are one.
pub format_int_injective : (m n : ℤ) → IsInt64 m → IsInt64 n → format_int m ≡ format_int n → m ≡ n
format_int_injective m n hm hn h =
    let same : some m ≡ some n =
      sym (parse_int-format_int m hm) ∙ ap parse_int h ∙ parse_int-format_int n hn in
    ground arith
