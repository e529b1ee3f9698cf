-- ===== src/Text/Numbers.antt =====
-- Decimal numbers: what `Display` writes, `parse` reads back.
use flywheel.Prelude.{
  ℕ, zero, suc, ◌+◌, ◌-◌, ◌*◌, ◌/◌, ◌%◌, ◌≤◌, ◌<◌, ◌≡◌, refl, ◌∙◌, ap, [], ◌∷◌, ◌++◌, some, All,
  All-append, arith, Bool-cases, inl, inr, ltb, u64_max, ltb→lt, length, length-append,
}
use flywheel.Bytes.{Bytes}
use flywheel.Text.{parse_digits, parse_u64, decimal_from, decimal}

-- One more digit.
parse_digits-append :
    (xs : Bytes) (value d v : ℕ)
    → parse_digits value xs ≡ some v
    → d < 10
    → v * 10 + d ≤ u64_max
    → parse_digits value (xs ++ (d + 48) ∷ []) ≡ some (v * 10 + d)
unfolding parse_digits
parse_digits-append [] value d v e h le = ground arith
parse_digits-append (c ∷ cs) value d v e h le =
    ground (arith, parse_digits-append cs (value * 10 + (c - 48)) d v)

abbrev pub IsDigit : ℕ → Type 0
IsDigit c = (48 ≤ c) × (c ≤ 57)

pub decimal_from-All : (fuel n : ℕ) → All IsDigit (decimal_from fuel n)
unfolding decimal_from
decimal_from-All zero n = tt
decimal_from-All (suc fuel) n = elim (Bool-cases (ltb n 10)) [
  | inl one ↦ rw one ((omega arith, let h = ltb→lt n 10 one in omega arith), tt)
  | inr more ↦ rw more (
      All-append IsDigit (decimal_from fuel (n / 10)) ((n % 10 + 48) ∷ [])
        (decimal_from-All fuel (n / 10)) ((omega arith, omega arith), tt))
]

-- A bound on the numbers of `fuel` digits.
abbrev tens : ℕ → ℕ
tens zero = 1
tens (suc fuel) = 10 * tens fuel

parse_digits-one : (n : ℕ) → n < 10 → parse_digits 0 ((n + 48) ∷ []) ≡ some n
unfolding parse_digits
parse_digits-one n h = ground arith

parse_digits-decimal_from :
    (fuel n : ℕ) → n < tens fuel → n ≤ u64_max → parse_digits 0 (decimal_from fuel n) ≡ some n
unfolding decimal_from
parse_digits-decimal_from zero n h le =
    let e : n ≡ 0 = omega arith in rw e (unfold parse_digits in refl)
parse_digits-decimal_from (suc fuel) n h le = elim (Bool-cases (ltb n 10)) [
  | inl one ↦ rw one (parse_digits-one n (ltb→lt n 10 one))
  | inr more ↦
      let whole : n / 10 * 10 + n % 10 ≡ n = omega arith in
      rw more (
        parse_digits-append (decimal_from fuel (n / 10)) 0 (n % 10) (n / 10)
          (parse_digits-decimal_from fuel (n / 10) (omega arith) (omega arith)) (omega arith)
          (omega arith)
        ∙ ap some whole)
]

pub decimal-All : (n : ℕ) → All IsDigit (decimal n)
unfolding decimal
decimal-All n = decimal_from-All 20 n

pub length-decimal : (n : ℕ) → 0 < length (decimal n)
unfolding decimal decimal_from
length-decimal n = elim (Bool-cases (ltb n 10)) [
  | inl one ↦ rw one (omega arith)
  | inr more ↦
      rw more (omega (arith, length-append {0} (decimal_from 19 (n / 10)) ((n % 10 + 48) ∷ [])))
]

-- Digits have no sign.
parse_u64-digits : (xs : Bytes) → 0 < length xs → All IsDigit xs → parse_u64 xs ≡ parse_digits 0 xs
unfolding parse_u64
parse_u64-digits [] h d = absurd (omega arith)
parse_u64-digits (c ∷ cs) h d = ground arith

-- Of a `u64`, `parse` reads back what `Display` writes.
pub parse_u64-decimal : (n : ℕ) → n ≤ u64_max → parse_u64 (decimal n) ≡ some n
parse_u64-decimal n le =
    parse_u64-digits (decimal n) (length-decimal n) (decimal-All n)
    ∙ (unfold decimal in parse_digits-decimal_from 20 n (omega arith) le)
