-- ===== src/Prelude/Digits.antt =====
-- Decimal numerals: what `str(n)` writes and `int(s)` reads.
use Prim.Native.Nat.{ℕ, zero, suc, ◌+◌, ◌/◌, ◌%◌, ◌^◌, ◌≤◌, ◌<◌}
use mathlib.Core.Path.{◌≡◌, refl, ◌∙◌, ap}
use mathlib.Core.Logic.{inl, inr}
use mathlib.Core.Bool.{Bool, true, false, ◌&&◌}
use mathlib.Core.List.{[], ◌∷◌}
use native.Mathlib.Omega.{arith}
use ha_paneld_home_assistant.Prelude.Tests.{ltb, leb, le→leb, and-eq-true, ltb→lt, Bool-cases}
use ha_paneld_home_assistant.Prelude.Lists.{length, all}
use ha_paneld_home_assistant.Prelude.Chars.{
  Text, decimal, decimal_from, to_decimal, digits_from, is_digit, chars_in,
}

not_less : (a b : ℕ) → ltb a b ≡ false → b ≤ a
not_less a b h = ground arith

digits_from-decimal :
    (fuel n : ℕ) (acc : Text)
    → n < fuel
    → decimal_from 0 (digits_from fuel n acc) ≡ decimal_from n acc
unfolding digits_from decimal_from
digits_from-decimal zero n acc h = omega (arith, h)
digits_from-decimal (suc fuel) n acc h = elim (Bool-cases (ltb n 10)) [
  | inl small ↦ rw small (ap (λ m. decimal_from m acc) (omega arith))
  | inr big ↦
      let ten = not_less n 10 big in
      rw big (
        digits_from-decimal fuel (n / 10) ((b'0' + n % 10) ∷ acc) (omega (arith, h, ten))
        ∙ ap (λ m. decimal_from m acc) (omega arith))
]

-- Reading what was written gives the number back.
pub decimal-to_decimal : (n : ℕ) → decimal (to_decimal n) ≡ n
unfolding decimal to_decimal decimal_from
decimal-to_decimal n = digits_from-decimal (suc n) n [] (omega arith)

all_digits :
    (n : ℕ) (acc : Text)
    → chars_in is_digit acc ≡ true
    → chars_in is_digit ((b'0' + n % 10) ∷ acc) ≡ true
unfolding chars_in all is_digit
all_digits n acc h = ground (arith, h)

-- A numeral without a leading zero.
abbrev pub is_positive : Text → Bool
is_positive [] = false
is_positive (c ∷ s) = (leb b'1' c && leb c b'9') && chars_in is_digit s

none_below : (n : ℕ) → ¬ (n < 0)
none_below n = omega arith

digits_from-is_positive :
    (fuel n : ℕ) (acc : Text)
    → n < fuel
    → 1 ≤ n
    → chars_in is_digit acc ≡ true
    → is_positive (digits_from fuel n acc) ≡ true
unfolding digits_from
digits_from-is_positive zero n acc h one digits = absurd (none_below n h)
digits_from-is_positive (suc fuel) n acc h one digits = elim (Bool-cases (ltb n 10)) [
  | inl small ↦ rw small (ground (arith, ltb→lt n 10 small))
  | inr big ↦
      let ten = not_less n 10 big in
      rw big (
        digits_from-is_positive fuel (n / 10) ((b'0' + n % 10) ∷ acc) (omega (arith, h, ten))
          (omega (arith, ten)) (all_digits n acc digits))
]

pub to_decimal-is_positive : (n : ℕ) → 1 ≤ n → is_positive (to_decimal n) ≡ true
unfolding to_decimal chars_in all
to_decimal-is_positive n one = digits_from-is_positive (suc n) n [] (omega arith) one refl

ten_digits : (n : ℕ) → n < 10 ^ 1 → ¬ (10 ≤ n)
ten_digits n h = omega (arith, h)

one_digit_less : (n d : ℕ) → n < 10 ^ suc (suc d) → n / 10 < 10 ^ suc d
one_digit_less n d h = omega (arith, h)

digits_from-length :
    (fuel n d : ℕ) (acc : Text)
    → n < 10 ^ suc d
    → length (digits_from fuel n acc) ≤ suc d + length acc
unfolding digits_from
digits_from-length zero n d acc h = omega arith
digits_from-length (suc fuel) n zero acc h = elim (Bool-cases (ltb n 10)) [
  | inl small ↦ rw small (omega arith)
  | inr big ↦ absurd (ten_digits n h (not_less n 10 big))
]
digits_from-length (suc fuel) n (suc d) acc h = elim (Bool-cases (ltb n 10)) [
  | inl small ↦ rw small (omega arith)
  | inr big ↦ rw big (
      omega
        (arith, digits_from-length fuel (n / 10) d ((b'0' + n % 10) ∷ acc) (one_digit_less n d h)))
]

pub to_decimal-length : (n : ℕ) → n < 10 ^ 10 → length (to_decimal n) ≤ 10
unfolding to_decimal
to_decimal-length n h = digits_from-length (suc n) n 9 [] h

short_length : (n : ℕ) → n < 10 ^ 3 → length (to_decimal n) ≤ 3
unfolding to_decimal
short_length n h = digits_from-length (suc n) n 2 [] h

one_digit :
    (n : ℕ) (acc : Text)
    → n < 10
    → chars_in is_digit acc ≡ true
    → (ltb 0 (length ((b'0' + n) ∷ acc)) && chars_in is_digit ((b'0' + n) ∷ acc)) ≡ true
unfolding chars_in all is_digit
one_digit n acc small h = ground (arith, small, h)

digits_from-chars :
    (fuel n : ℕ) (acc : Text)
    → n < fuel
    → chars_in is_digit acc ≡ true
    → (ltb 0 (length (digits_from fuel n acc)) && chars_in is_digit (digits_from fuel n acc)) ≡ true
unfolding digits_from
digits_from-chars zero n acc h digits = absurd (none_below n h)
digits_from-chars (suc fuel) n acc h digits = elim (Bool-cases (ltb n 10)) [
  | inl small ↦ rw small (one_digit n acc (ltb→lt n 10 small) digits)
  | inr big ↦ rw big (
      digits_from-chars fuel (n / 10) ((b'0' + n % 10) ∷ acc) (omega (arith, h, not_less n 10 big))
        (all_digits n acc digits))
]

all_written : (n : ℕ) → (ltb 0 (length (to_decimal n)) && chars_in is_digit (to_decimal n)) ≡ true
unfolding to_decimal chars_in all
all_written n = digits_from-chars (suc n) n [] (omega arith) refl

-- The numeral of a number below a thousand: one to three digits.
pub to_decimal-digits :
    (n : ℕ)
    → n < 1000
    → (ltb 0 (length (to_decimal n)) ≡ true)
      × (leb (length (to_decimal n)) 3 ≡ true)
      × (chars_in is_digit (to_decimal n) ≡ true)
to_decimal-digits n h =
    let (filled, digits) = and-eq-true _ _ (all_written n) in
    (filled, le→leb _ _ (short_length n h), digits)
