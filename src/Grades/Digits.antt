-- ===== src/Grades/Digits.antt =====
-- `str` of a number, whose loop runs on fuel here.
use edtech_back.Base.{
  ℕ, zero, suc, ◌+◌, ◌/◌, ◌%◌, ◌≡◌, ◌<◌, ◌∙◌, refl, true, ◌&&◌, some, [], ◌∷◌, Text, nonempty, ltb,
  digits_from, show_nat, all_digits, read_from, read_nat, arith, Bool-cases, inl, inr,
}

read_from-digits_from :
    (fuel n : ℕ) (acc : Text) → n < fuel → read_from 0 (digits_from fuel n acc) ≡ read_from n acc
unfolding digits_from read_from
read_from-digits_from zero n acc h = absurd (omega arith)
read_from-digits_from (suc fuel) n acc h = elim (Bool-cases (ltb n 10)) [
  | inl one ↦ rw one (ground arith)
  | inr more ↦
      rw more
        (read_from-digits_from fuel (n / 10) ((48 + n % 10) ∷ acc) (ground arith) ∙ ground arith)
]

all_digits-digits_from :
    (fuel n : ℕ) (acc : Text)
    → n < fuel
    → all_digits acc ≡ true
    → (nonempty (digits_from fuel n acc) && all_digits (digits_from fuel n acc)) ≡ true
unfolding digits_from all_digits
all_digits-digits_from zero n acc h d = absurd (omega arith)
all_digits-digits_from (suc fuel) n acc h d = elim (Bool-cases (ltb n 10)) [
  | inl one ↦ rw one (ground (arith, d))
  | inr more ↦ rw more (
      all_digits-digits_from fuel (n / 10) ((48 + n % 10) ∷ acc) (ground arith) (ground (arith, d)))
]

-- The digits of a number read back as the number: the fuel of `show_nat` is always enough.
pub read_nat-show_nat : (n : ℕ) → read_nat (show_nat n) ≡ some n
unfolding read_nat show_nat
read_nat-show_nat n =
    rw (all_digits-digits_from (n + 1) n [] (omega arith) refl)
      (rw (read_from-digits_from (n + 1) n [] (omega arith)) refl)

-- A number is written with digits, and with one at least.
pub all_digits-show_nat : (n : ℕ) → (nonempty (show_nat n) && all_digits (show_nat n)) ≡ true
unfolding show_nat
all_digits-show_nat n =
    all_digits-digits_from (n + 1) n [] (omega arith) (unfold all_digits in refl)
