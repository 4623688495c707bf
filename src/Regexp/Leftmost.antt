-- ===== src/Regexp/Leftmost.antt =====
-- What `FindStringSubmatch` finds: a match, and none starts further left.
use go_imagefy.Prelude.{ℕ, Option, some, none, List, [], ◌∷◌, ◌≡◌, refl}
use go_imagefy.Text.{Text}
use go_imagefy.Regexp.{Re, Place, place, Captures, runs, Match, first_of, find_from, find}
use go_imagefy.Regexp.Members.{In, first}
use go_imagefy.Regexp.Relation.{Matches}
use go_imagefy.Regexp.Decision.{runs-Matches, Matches-runs}

-- The pattern matches at the place.
abbrev pub CanStart : Re → Place → Type 0
CanStart re p = (q : Place) × ((caps : Captures) × Matches re p [] q caps)

-- The match is one, and the pattern matches at no place in front of its start.
pub data Leftmost (re : Re) : Option ℕ → Text → Match → Type 0 where
  starts_here :
      {prev : Option ℕ} {s : Text} {m : Match}
      → m.from ≡ place prev s
      → Matches re m.from [] m.to m.captures
      → Leftmost re prev s m
  goes_on :
      {prev : Option ℕ} {c : ℕ} {s : Text} {m : Match}
      → ¬ CanStart re (place prev (c ∷ s))
      → Leftmost re (some c) s m
      → Leftmost re prev (c ∷ s) m

-- The pattern matches at no place of the text.
abbrev pub Nowhere : Re → Option ℕ → Text → Type 0
Nowhere re prev [] = ¬ CanStart re (place prev [])
Nowhere re prev (c ∷ s) = ¬ CanStart re (place prev (c ∷ s)) × Nowhere re (some c) s

-- What is found is the leftmost match; what is not found is nowhere.
abbrev pub Finds : Re → Option ℕ → Text → Option Match → Type 0
Finds re prev s none = Nowhere re prev s
Finds re prev s (some m) = Leftmost re prev s m

-- What is made of the matches at a place.
abbrev Here : Re → Place → Option Match → Type 0
Here re p none = ¬ CanStart re p
Here re p (some m) = (m.from ≡ p) × Matches re m.from [] m.to m.captures

first_of-Here :
    (re : Re) (p : Place) (ms : List (Place × Captures))
    → ((x : Place × Captures) → In x ms → Matches re p [] x.0 x.1)
    → ((q : Place) (caps : Captures) → Matches re p [] q caps → In (q, caps) ms)
    → Here re p (first_of p ms)
first_of-Here re p [] sound complete = λ d. elim (complete d.0 d.1.0 d.1.1) [ ]
first_of-Here re p (x ∷ ms) sound complete = (refl, sound x first)

runs-Here : (re : Re) (p : Place) → Here re p (first_of p (runs re p []))
runs-Here re p =
    first_of-Here re p (runs re p []) (λ x h. runs-Matches re p [] h) (λ q caps d. Matches-runs d)

combine :
    (re : Re) (prev : Option ℕ) (c : ℕ) (s : Text) (now later : Option Match)
    → Here re (place prev (c ∷ s)) now
    → Finds re (some c) s later
    → Finds re prev (c ∷ s) (elim now [ none ↦ later | some m ↦ some m ])
combine re prev c s none none h l = (h, l)
combine re prev c s none (some m) h l = goes_on h l
combine re prev c s (some m) later h l = starts_here h.0 h.1

at_the_end :
    (re : Re) (prev : Option ℕ) (now : Option Match)
    → Here re (place prev []) now
    → Finds re prev [] now
at_the_end re prev none h = h
at_the_end re prev (some m) h = starts_here h.0 h.1

pub find_from-Finds : (re : Re) (prev : Option ℕ) (s : Text) → Finds re prev s (find_from re prev s)
unfolding find_from
find_from-Finds re prev [] = at_the_end re prev _ (runs-Here re (place prev []))
find_from-Finds re prev (c ∷ s) =
    combine re prev c s _ (find_from re (some c) s) (runs-Here re (place prev (c ∷ s)))
      (find_from-Finds re (some c) s)

-- A search in a text finds a match that starts as far left as any, and finds none only where the
-- pattern matches at no place of the text.
pub find-Finds : (re : Re) (s : Text) → Finds re none s (find re s)
unfolding find
find-Finds re s = find_from-Finds re none s
