-- ===== src/Decimal.antt =====
-- `%d` of package `fmt`.
pub mod Value
use go_imagefy.Prelude.{
  ℕ, zero, suc, ◌+◌, ◌/◌, ◌%◌, ℤ, pos, negsuc, ltb, List, [], ◌∷◌, ◌++◌, if◌then◌else◌,
}
use go_imagefy.Text.{Text, codes}

-- The digits of a number, as `%d` writes them; a number has at most as many digits as its value, or
-- one, so the fuel is enough.
unfoldable pub digits : ℕ → ℕ → Text
digits zero n = []
digits (suc fuel) n =
    let front = digits fuel (n / 10) in
    if ltb n 10 then (48 + n) ∷ [] else front ++ (48 + n % 10) ∷ []

unfoldable pub decimal : ℕ → Text
unfolding digits
decimal n = digits (suc n) n

unfoldable pub decimal_ℤ : ℤ → Text
unfolding decimal
decimal_ℤ (pos n) = decimal n
decimal_ℤ (negsuc n) = codes "-" ++ decimal (suc n)
