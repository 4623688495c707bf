-- ===== src/ImageUrl/Numbers.antt =====
-- What `parseIntFast` reads.
use go_imagefy.Prelude.{
  ℕ, zero, suc, ◌+◌, ◌-◌, ◌*◌, ◌/◌, ◌%◌, ◌^◌, ◌<◌, ltb, true, [], ◌∷◌, ◌≡◌, sym, ap, ◌∙◌, inl, inr,
  arith, All, All-append, Bool-cases,
}
use go_imagefy.Text.{Text}
use go_imagefy.Regexp.Syntax.{is_digit}
use go_imagefy.Decimal.{digits, decimal}
use go_imagefy.Decimal.Value.{read_digits, decimal-value}
use go_imagefy.ImageUrl.{parse_int_from, parse_int_fast}

abbrev AllDigits : Text → Type 0
AllDigits = All (λ c. is_digit c ≡ true)

digits-AllDigits : (fuel n : ℕ) → AllDigits (digits fuel n)
unfolding digits
digits-AllDigits zero n = tt
digits-AllDigits (suc fuel) n = elim (Bool-cases (ltb n 10)) [
  | inl small ↦ rw (small) (ground arith, tt)
  | inr large ↦
      rw (large)
        (All-append _ (digits fuel (n / 10)) _ (digits-AllDigits fuel (n / 10)) (ground arith, tt))
]

read_digits-mod :
    (n : ℕ) (s : Text) → read_digits (n % 2 ^ 64) s % 2 ^ 64 ≡ read_digits n s % 2 ^ 64
unfolding read_digits
read_digits-mod n [] = omega arith
read_digits-mod n (c ∷ s) =
    sym (read_digits-mod ((n % 2 ^ 64) * 10 + (c - 48)) s)
    ∙ (ap (λ k. read_digits k s % 2 ^ 64) (omega arith) ∙ read_digits-mod (n * 10 + (c - 48)) s)

parse_int_from-value :
    (n : ℕ) (s : Text) → n < 2 ^ 64 → AllDigits s → parse_int_from n s ≡ read_digits n s % 2 ^ 64
unfolding parse_int_from read_digits
parse_int_from-value n [] h d = omega arith
parse_int_from-value n (c ∷ s) h (e, d) = rw (e) (
    parse_int_from-value ((n * 10 + (c - 48)) % 2 ^ 64) s (omega arith) d
    ∙ read_digits-mod (n * 10 + (c - 48)) s)

-- The digits of a number are read as that number, modulo 2 ^ 64.
pub parse_int_fast-decimal : (n : ℕ) → parse_int_fast (decimal n) ≡ n % 2 ^ 64
unfolding parse_int_fast decimal
parse_int_fast-decimal n =
    parse_int_from-value 0 (decimal n) (omega arith) (digits-AllDigits (suc n) n)
    ∙ ap (λ k. k % 2 ^ 64) (decimal-value n)
