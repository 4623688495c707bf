-- ===== src/Decimal/Value.antt =====
-- The digits of a number, read back.
use go_imagefy.Prelude.{
  ℕ, zero, suc, ◌+◌, ◌-◌, ◌*◌, ◌/◌, ◌%◌, ◌<◌, ltb, [], ◌∷◌, ◌++◌, ◌≡◌, inl, inr, arith, Bool-cases,
}
use go_imagefy.Text.{Text}
use go_imagefy.Decimal.{digits, decimal}

-- The number that digits stand for, given what was read before them.
unfoldable pub read_digits : ℕ → Text → ℕ
read_digits n [] = n
read_digits n (c ∷ s) = read_digits (n * 10 + (c - 48)) s

read_digits-append :
    (n : ℕ) (s : Text) (c : ℕ) → read_digits n (s ++ c ∷ []) ≡ read_digits n s * 10 + (c - 48)
unfolding read_digits
read_digits-append n [] c = omega arith
read_digits-append n (d ∷ s) c = read_digits-append (n * 10 + (d - 48)) s c

digits-value : (fuel n : ℕ) → n < fuel → read_digits 0 (digits fuel n) ≡ n
unfolding digits
digits-value zero n h = omega arith
digits-value (suc fuel) n h = elim (Bool-cases (ltb n 10)) [
  | inl small ↦ rw (small) (unfold read_digits in ground arith)
  | inr large ↦ rw (large) (
      ground (
        arith,
        read_digits-append 0 (digits fuel (n / 10)) (48 + n % 10),
        digits-value fuel (n / 10) (ground arith),
      ))
]

-- A number is read back from its digits.
pub decimal-value : (n : ℕ) → read_digits 0 (decimal n) ≡ n
unfolding decimal
decimal-value n = digits-value (suc n) n (omega arith)
