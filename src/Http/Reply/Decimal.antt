-- ===== src/Http/Reply/Decimal.antt =====
-- `std::to_string` of a size: its decimal digits.
use reminder_suite.Prelude.{
  ℕ, zero, suc, ◌+◌, ◌-◌, ◌*◌, ◌/◌, ◌%◌, ◌<◌, [], ◌∷◌, ◌++◌, ltb, if◌then◌else◌, ◌≡◌, refl,
  Bool-cases, inl, inr, All, All-append, arith,
}
use reminder_suite.Text.{Bytes}
use reminder_suite.Http.Parser.{is_digit}
use reminder_suite.Http.Parser.Numbers.{IsDigit, number}

-- The fuel is the number itself and one more: dividing by ten makes it smaller.
decimal_fuel : ℕ → ℕ → Bytes
decimal_fuel zero n = []
decimal_fuel (suc f) n =
    let front = decimal_fuel f (n / 10) in
    if ltb n 10 then (b'0' + n) ∷ [] else front ++ (b'0' + n % 10) ∷ []

unfoldable pub to_decimal : ℕ → Bytes
unfolding decimal_fuel
to_decimal n = decimal_fuel (suc n) n

number-append : (ds : Bytes) (n c : ℕ) → number n (ds ++ c ∷ []) ≡ number n ds * 10 + c - b'0'
number-append [] n c = refl
number-append (d ∷ ds) n c = number-append ds (n * 10 + d - b'0') c

number-decimal_fuel : (f n : ℕ) → n < f → number 0 (decimal_fuel f n) ≡ n
unfolding decimal_fuel
number-decimal_fuel zero n h = elim h [ ]
number-decimal_fuel (suc f) n h = elim (Bool-cases (ltb n 10)) [
  | inl small ↦ rw small (omega arith)
  | inr large ↦
      rw large (rw number-append (omega (arith, number-decimal_fuel f (n / 10) (ground arith))))
]

-- The digits of a size have the size for their value.
pub number-to_decimal : (n : ℕ) → number 0 (to_decimal n) ≡ n
unfolding to_decimal
number-to_decimal n = number-decimal_fuel (suc n) n (omega arith)

below_ten-IsDigit : (d : ℕ) → d < 10 → IsDigit (b'0' + d)
unfolding is_digit
below_ten-IsDigit d h = ground arith

decimal_fuel-IsDigit : (f n : ℕ) → All IsDigit (decimal_fuel f n)
unfolding decimal_fuel
decimal_fuel-IsDigit zero n = tt
decimal_fuel-IsDigit (suc f) n = elim (Bool-cases (ltb n 10)) [
  | inl small ↦ rw small (below_ten-IsDigit n (ground arith), tt)
  | inr large ↦ rw large (
      All-append IsDigit (decimal_fuel f (n / 10)) _ (decimal_fuel-IsDigit f (n / 10))
        (below_ten-IsDigit (n % 10) (omega arith), tt))
]

pub to_decimal-IsDigit : (n : ℕ) → All IsDigit (to_decimal n)
unfolding to_decimal
to_decimal-IsDigit n = decimal_fuel-IsDigit (suc n) n
