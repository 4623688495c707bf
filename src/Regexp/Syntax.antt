-- ===== src/Regexp/Syntax.antt =====
-- The notations of a pattern.
use go_imagefy.Prelude.{
  ℕ, ◌-◌, Bool, true, false, not, ◌&&◌, ◌||◌, ◌==◌, leb, [], ◌∷◌, if◌then◌else◌,
}
use go_imagefy.Text.{Text, in_cutset}
use go_imagefy.Regexp.{Re, nothing, one, star, seq, alt}

-- The same rune under `(?i)`, for a rune of a pattern: the other case of a letter, and the two runes
-- beyond ASCII that fold to "k" and to "s".
abbrev pub same_folded : ℕ → ℕ → Bool
same_folded x c =
    if leb b'a' x && leb x b'z'
    then (c == x || (c == x - 32 || (x == b'k' && c == 0x212A || x == b's' && c == 0x17F)))
    else c == x

-- A text of a pattern, letter for letter, and under `(?i)`.
abbrev pub exactly : Text → Re
exactly [] = nothing
exactly (x ∷ s) = seq (one (λ c. c == x)) (exactly s)

abbrev pub folded : Text → Re
folded [] = nothing
folded (x ∷ s) = seq (one (same_folded x)) (folded s)

-- `[…]` and `[^…]`.
abbrev pub among : Text → ℕ → Bool
among = in_cutset

abbrev pub none_of : Text → ℕ → Bool
none_of s c = not (in_cutset s c)

-- `[…]*`, `[…]+`, `[…]*?` and `r?`.
abbrev pub many : (ℕ → Bool) → Re
many cls = star true cls

abbrev pub plus : (ℕ → Bool) → Re
plus cls = seq (one cls) (star true cls)

abbrev pub lazy : (ℕ → Bool) → Re
lazy cls = star false cls

abbrev pub optional : Re → Re
optional r = alt r nothing

infixr 5 ◌>◌
-- One after the other.
abbrev pub ◌>◌ : Re → Re → Re
r > s = seq r s

-- `\\s`, `\\d` and `.` under `(?s)`.
abbrev pub is_blank : ℕ → Bool
is_blank c = c == 9 || (c == 10 || (c == 12 || (c == 13 || c == 32)))

abbrev pub is_digit : ℕ → Bool
is_digit c = leb b'0' c && leb c b'9'

abbrev pub any_rune : ℕ → Bool
any_rune c = true
