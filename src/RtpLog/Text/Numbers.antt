-- ===== src/RtpLog/Text/Numbers.antt =====
-- internal/utils/rtp_log_interceptor.go: a number is read back from its digits.
use native.Mathlib.Nat.{div-lt_self, div-add-mod'}
use rtq_go_endpoint.Common.{
  ℕ, zero, suc, ◌+◌, ◌*◌, ◌-◌, ◌/◌, ◌%◌, ◌<◌, ◌≤◌, ◌≡◌, ◌∙◌, refl, ap₂, false, List, [], ◌∷◌, ◌++◌,
  map, All, ltb, if◌then◌else◌, arith, Bool-cases, inl, inr,
}
use rtq_go_endpoint.RtpLog.Text.{Bytes, digits_on, digits, digit_char, decimal, hexadecimal}

-- The number that digits stand for, after those that make `n`.
unfoldable pub value : ℕ → ℕ → List ℕ → ℕ
value base n [] = n
value base n (d ∷ ds) = value base (n * base + d) ds

value-append :
    (base n : ℕ) (ds : List ℕ) (d : ℕ) → value base n (ds ++ (d ∷ [])) ≡ value base n ds * base + d
unfolding value
value-append base n [] d = refl
value-append base n (e ∷ ds) d = value-append base (n * base + e) ds d

quotient_fits : (fuel base n : ℕ) → 2 ≤ base → n ≤ suc fuel → ltb n base ≡ false → n / base ≤ fuel
quotient_fits fuel base n two enough large =
    let positive : 0 < n = ground arith in omega (arith, div-lt_self positive two)

value-digits_on : (fuel base n : ℕ) → 2 ≤ base → n ≤ fuel → value base 0 (digits_on fuel base n) ≡ n
unfolding digits_on value
value-digits_on zero base n two enough = omega arith
value-digits_on (suc fuel) base n two enough = elim (Bool-cases (ltb n base)) [
  | inl small ↦ rw small (omega arith)
  | inr large ↦ rw large (
      value-append base 0 (digits_on fuel base (n / base)) (n % base)
      ∙ (rw (value-digits_on fuel base (n / base) two (quotient_fits fuel base n two enough large))
          (div-add-mod' n base)))
]

-- The digit that a character stands for.
unfoldable pub char_digit : ℕ → ℕ
char_digit c = if ltb c 58 then c - 48 else c - 87

pub char_digit-digit_char : (d : ℕ) → char_digit (digit_char d) ≡ d
unfolding char_digit digit_char
char_digit-digit_char d = ground arith

digit_char_printable : (d : ℕ) → 48 ≤ digit_char d
unfolding digit_char
digit_char_printable d = ground arith

map-char_digit : (ds : List ℕ) → map char_digit (map digit_char ds) ≡ ds
map-char_digit [] = refl
map-char_digit (d ∷ ds) = ap₂ (λ c cs. c ∷ cs) (char_digit-digit_char d) (map-char_digit ds)

unfoldable pub read_number : ℕ → Bytes → ℕ
read_number base text = value base 0 (map char_digit text)

pub read_number-decimal : (n : ℕ) → read_number 10 (decimal n) ≡ n
unfolding read_number decimal digits
read_number-decimal n =
    rw (map-char_digit (digits_on n 10 n)) (value-digits_on n 10 n (omega arith) (omega arith))

pub read_number-hexadecimal : (n : ℕ) → read_number 16 (hexadecimal n) ≡ n
unfolding read_number hexadecimal digits
read_number-hexadecimal n =
    rw (map-char_digit (digits_on n 16 n)) (value-digits_on n 16 n (omega arith) (omega arith))

-- No byte is a tab or a line's end.
abbrev pub IsField : Bytes → Type 0
IsField text = All (λ c. 11 ≤ c) text

digits-IsField : (ds : List ℕ) → IsField (map digit_char ds)
digits-IsField [] = tt
digits-IsField (d ∷ ds) = (omega (arith, digit_char_printable d), digits-IsField ds)

pub decimal-IsField : (n : ℕ) → IsField (decimal n)
unfolding decimal
decimal-IsField n = digits-IsField (digits 10 n)

pub hexadecimal-IsField : (n : ℕ) → IsField (hexadecimal n)
unfolding hexadecimal
hexadecimal-IsField n = digits-IsField (digits 16 n)

printable : (ds : List ℕ) → All (λ c. 48 ≤ c) (map digit_char ds)
printable [] = tt
printable (d ∷ ds) = (digit_char_printable d, printable ds)

-- The characters of a number come after every mark and the space.
pub decimal_printable : (n : ℕ) → All (λ c. 48 ≤ c) (decimal n)
unfolding decimal
decimal_printable n = printable (digits 10 n)
