-- ===== src/Text.antt =====
-- Go strings, and the functions of the `strings` package that the program calls.
-- A string is the list of its runes: the program only meets valid UTF-8, and where it looks at
-- single bytes it looks for ASCII ones.
pub mod Search
pub mod Index
use mathlib.Core.Option
use Prim.Native.Char.{code}
use Prim.Native.String.{String}
use go_imagefy.Prelude.{
  ℕ, zero, suc, ◌+◌, ◌-◌, ◌<◌, Bool, true, false, not, ◌&&◌, ◌||◌, Option, none, some, List, [],
  ◌∷◌, ◌++◌, map, ltb, leb, ◌==◌, if◌then◌else◌, any,
}

abbrev pub Text : Type 0
Text = List ℕ

-- The runes of a literal.
abbrev pub codes : String → Text
codes String.[] = []
codes (String.◌∷◌ c s) = code c ∷ codes s

-- `a == b` on strings.
unfoldable pub text_eq : Text → Text → Bool
text_eq [] [] = true
text_eq [] (d ∷ t) = false
text_eq (c ∷ s) [] = false
text_eq (c ∷ s) (d ∷ t) = c == d && text_eq s t

-- `strings.HasPrefix(s, p)`.
unfoldable pub has_prefix : Text → Text → Bool
has_prefix s [] = true
has_prefix [] (c ∷ p) = false
has_prefix (d ∷ s) (c ∷ p) = d == c && has_prefix s p

-- `strings.Contains(s, w)`.
unfoldable pub contains : Text → Text → Bool
unfolding has_prefix
contains [] w = has_prefix [] w
contains (c ∷ s) w = has_prefix (c ∷ s) w || contains s w

-- `strings.Index(s, w)`; `none` is -1.
unfoldable pub index : Text → Text → Option ℕ
unfolding has_prefix
index [] w = if has_prefix [] w then some 0 else none
index (c ∷ s) w = if has_prefix (c ∷ s) w then some 0 else Option.map suc (index s w)

-- `s[n:]`, for n within the string.
unfoldable pub drop : ℕ → Text → Text
drop zero s = s
drop (suc n) [] = []
drop (suc n) (c ∷ s) = drop n s

-- `unicode.IsSpace`: the ASCII spaces, NEL, NBSP and the property White_Space.
abbrev pub is_space : ℕ → Bool
is_space c =
    (leb 9 c && leb c 13)
    || c == 32
    || c == 0x85
    || c == 0xA0
    || c == 0x1680
    || (leb 0x2000 c && leb c 0x200A)
    || c == 0x2028
    || c == 0x2029
    || c == 0x202F
    || c == 0x205F
    || c == 0x3000

-- `strings.TrimLeft` by a test on runes.
unfoldable pub trim_left : (ℕ → Bool) → Text → Text
trim_left p [] = []
trim_left p (c ∷ s) = let rest = trim_left p s in if p c then rest else c ∷ s

-- `strings.TrimRight` by a test on runes: a rune stays if it, or one behind it, is to be kept.
unfoldable pub trim_right : (ℕ → Bool) → Text → Text
trim_right p [] = []
trim_right p (c ∷ s) = elim (trim_right p s) [ [] ↦ if p c then [] else c ∷ [] | d ∷ t ↦ c ∷ d ∷ t ]

unfoldable pub trim : (ℕ → Bool) → Text → Text
unfolding trim_left trim_right
trim p s = trim_right p (trim_left p s)

-- `strings.TrimSpace(s)`.
unfoldable pub trim_space : Text → Text
unfolding trim
trim_space = trim is_space

-- A test for a cutset, as in `strings.Trim(s, cutset)`.
unfoldable pub in_cutset : Text → ℕ → Bool
unfolding any
in_cutset cutset c = any (λ d. d == c) cutset

-- `cur` is the field that is being read.
cut_fields : Text → Text → List Text
cut_fields [] [] = []
cut_fields [] (c ∷ cur) = (c ∷ cur) ∷ []
cut_fields (c ∷ s) [] = elim (is_space c) [ true ↦ cut_fields s [] | false ↦ cut_fields s (c ∷ []) ]
cut_fields (c ∷ s) (d ∷ cur) = elim (is_space c) [
  | true ↦ (d ∷ cur) ∷ cut_fields s []
  | false ↦ cut_fields s (d ∷ (cur ++ c ∷ []))
]

-- `strings.Fields(s)`: the maximal runs of runes that are no spaces.
unfoldable pub fields : Text → List Text
unfolding cut_fields
fields s = cut_fields s []

-- `strings.Join(parts, sep)`.
unfoldable pub join : List Text → Text → Text
join [] sep = []
join (p ∷ []) sep = p
join (p ∷ q ∷ ps) sep = p ++ (sep ++ join (q ∷ ps) sep)
