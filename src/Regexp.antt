-- ===== src/Regexp.antt =====
-- Package `regexp`, as far as the program's patterns use it: which matches a pattern has at a place of
-- a text, in the order in which a backtracking search would try them, and the leftmost one.
-- Repetition is of single runes only, as in all of the patterns.
pub mod Syntax
pub mod Members
pub mod Relation
pub mod Decision
pub mod Leftmost
pub mod Captured
pub mod Tails
pub mod Language
pub mod Pieces
pub mod Enough
use go_imagefy.Prelude.{
  ℕ, zero, suc, ◌-◌, Bool, true, false, not, ◌&&◌, ◌||◌, ◌==◌, leb, Option, some, none, List, [],
  ◌∷◌, ◌++◌, length, take, if◌then◌else◌,
}
use go_imagefy.Text.{Text}

pub data Re : Type 0 where
  nothing : Re
  one : (ℕ → Bool) → Re
  -- `[…]*` if greedy, `[…]*?` if not.
  star : Bool → (ℕ → Bool) → Re
  seq alt : Re → Re → Re
  -- A group with its number, whose text is captured.
  group : ℕ → Re → Re
  -- `\\b` and `$`.
  boundary at_end : Re

-- A place in a text: the rune in front of it, and what lies ahead.
pub record Place : Type 0 where
  pub previous : Option ℕ
  pub ahead : Text

abbrev pub place : Option ℕ → Text → Place
place prev s = record { previous = prev; ahead = s }

abbrev pub start_of : Text → Place
start_of s = place none s

abbrev pub after : ℕ → Text → Place
after c s = place (some c) s

-- The texts of groups, the latest first.
abbrev pub Captures : Type 0
Captures = List (ℕ × Text)

-- `[0-9A-Za-z_]`.
abbrev pub is_word : ℕ → Bool
is_word c =
    leb b'0' c && leb c b'9'
    || (leb b'A' c && leb c b'Z' || (leb b'a' c && leb c b'z' || c == b'_'))

abbrev pub word_before : Place → Bool
word_before p = elim p.previous [ none ↦ false | some c ↦ is_word c ]

abbrev pub word_after : Place → Bool
word_after p = elim p.ahead [ [] ↦ false | c ∷ s ↦ is_word c ]

abbrev pub differ : Bool → Bool → Bool
differ true b = not b
differ false b = b

-- The text between two places.
abbrev pub between : Place → Place → Text
between p q = take (length p.ahead - length q.ahead) p.ahead

-- A greedy repetition prefers to go on, a lazy one to stop here.
abbrev pub add_here : Bool → List Place → Place → List Place
add_here true more here = more ++ here ∷ []
add_here false more here = here ∷ more

-- Where a repetition can end.
unfoldable pub star_ends : Bool → (ℕ → Bool) → Option ℕ → Text → List Place
star_ends greedy cls prev [] = place prev [] ∷ []
star_ends greedy cls prev (c ∷ s) =
    let more = star_ends greedy cls (some c) s in
    let here = place prev (c ∷ s) in if cls c then add_here greedy more here else here ∷ []

module _ {A B : Type 0} where
  unfoldable pub flat_map : (A → List B) → List A → List B
  flat_map f [] = []
  flat_map f (x ∷ xs) = f x ++ flat_map f xs

-- The ends of the matches at a place, the preferred ones first, each with all captures so far.
unfoldable pub runs : Re → Place → Captures → List (Place × Captures)
unfolding star_ends flat_map
runs nothing p caps = (p, caps) ∷ []
runs (one cls) p caps = elim p.ahead [
  | [] ↦ []
  | c ∷ s ↦ if cls c then (after c s, caps) ∷ [] else []
]
runs (star greedy cls) p caps =
    flat_map (λ q. (q, caps) ∷ []) (star_ends greedy cls p.previous p.ahead)
runs (seq r s) p caps = flat_map (λ m. runs s m.0 m.1) (runs r p caps)
runs (alt r s) p caps = runs r p caps ++ runs s p caps
runs (group n r) p caps = flat_map (λ m. (m.0, (n, between p m.0) ∷ m.1) ∷ []) (runs r p caps)
runs boundary p caps = if differ (word_before p) (word_after p) then (p, caps) ∷ [] else []
runs at_end p caps = elim p.ahead [ [] ↦ (p, caps) ∷ [] | c ∷ s ↦ [] ]

-- A match: where it starts and ends, and its groups.
pub record Match : Type 0 where
  pub from : Place
  pub to : Place
  pub captures : Captures

abbrev pub first_of : Place → List (Place × Captures) → Option Match
first_of p [] = none
first_of p (m ∷ ms) = some (record { from = p; to = m.0; captures = m.1 })

-- The leftmost match, of those that start there the preferred one.
unfoldable pub find_from : Re → Option ℕ → Text → Option Match
find_from re prev [] = first_of (place prev []) (runs re (place prev []) [])
find_from re prev (c ∷ s) =
    let here = place prev (c ∷ s) in
    let later = find_from re (some c) s in
    elim (first_of here (runs re here [])) [ none ↦ later | some m ↦ some m ]

-- `re.FindStringSubmatch(s)`; `none` is nil.
unfoldable pub find : Re → Text → Option Match
unfolding find_from
find re s = find_from re none s

-- `m[n]`: the text of a group, or "".
unfoldable pub captured : ℕ → Captures → Text
captured n [] = []
captured n (e ∷ es) = let older = captured n es in if e.0 == n then e.1 else older

-- `m[0]`.
abbrev pub whole : Match → Text
whole m = between m.from m.to

-- `re.MatchString(s)`.
abbrev pub is_match : Re → Text → Bool
is_match re s = elim (find re s) [ none ↦ false | some m ↦ true ]

-- `re.FindAllStringSubmatch(s, -1)`, for a pattern that matches no empty text: each match takes a
-- rune at least, so the length of the text is fuel enough.
unfoldable pub find_all_from : Re → ℕ → Place → List Match
find_all_from re zero p = []
find_all_from re (suc fuel) p = elim (find_from re p.previous p.ahead) [
  | none ↦ []
  | some m ↦ m ∷ find_all_from re fuel m.to
]

unfoldable pub find_all : Re → Text → List Match
unfolding find_all_from
find_all re s = find_all_from re (length s) (start_of s)
