-- ===== src/Regexp/Enough.antt =====
-- The fuel of the search for all matches is enough.
use go_imagefy.Prelude.{
  ℕ, zero, suc, ◌<◌, ◌≤◌, Option, some, none, List, [], ◌∷◌, length, ◌≡◌, refl, sym, ap, subst,
  arith,
}
use go_imagefy.Text.{Text}
use go_imagefy.Regexp.{Re, Place, Match, find_from, find_all_from, find_all, start_of}
use go_imagefy.Regexp.Leftmost.{Leftmost, starts_here, goes_on, Finds, find_from-Finds}
use go_imagefy.Regexp.Captured.{TakesSome, Matches-lt}

Leftmost-lt :
    {re : Re} {prev : Option ℕ} {s : Text} {m : Match}
    → TakesSome re
    → Leftmost re prev s m
    → length m.to.ahead < length s
Leftmost-lt {s} {m} t (starts_here e d) =
    let start : length m.from.ahead ≡ length s = ap (λ p. length p.ahead) e in
    omega (arith, start, Matches-lt d t)
Leftmost-lt t (goes_on n l) = omega (arith, Leftmost-lt t l)

found-lt :
    (re : Re) (p : Place) (m : Match)
    → TakesSome re
    → find_from re p.previous p.ahead ≡ some m
    → length m.to.ahead < length p.ahead
found-lt re p m t e =
    Leftmost-lt t (subst (Finds re p.previous p.ahead) e (find_from-Finds re p.previous p.ahead))

-- Nothing lies ahead, so nothing is found.
nothing_found :
    (re : Re) (p : Place) (later : Match → List Match)
    → TakesSome re
    → length p.ahead ≤ 0
    → elim (find_from re p.previous p.ahead) as (λ x. List Match) [ none ↦ [] | some m ↦ later m ]
      ≡ []
nothing_found re p later t h = go (find_from re p.previous p.ahead) refl
  where
    go :
        (o : Option Match)
        → find_from re p.previous p.ahead ≡ o
        → elim o as (λ x. List Match) [ none ↦ [] | some m ↦ later m ] ≡ []
    go none e = refl
    go (some m) e = absurd (omega (arith, found-lt re p m t e))

-- With fuel for each rune that lies ahead, the matches do not depend on the fuel.
enough :
    (re : Re) (fuel other : ℕ) (p : Place)
    → TakesSome re
    → length p.ahead ≤ fuel
    → length p.ahead ≤ other
    → find_all_from re fuel p ≡ find_all_from re other p
unfolding find_all_from
enough re zero zero p t h k = refl
enough re zero (suc other) p t h k = sym (nothing_found re p _ t h)
enough re (suc fuel) zero p t h k = nothing_found re p _ t k
enough re (suc fuel) (suc other) p t h k =
    go (find_from re p.previous p.ahead) refl (λ q i j. enough re fuel other q t i j)
  where
    go :
        (o : Option Match)
        → find_from re p.previous p.ahead ≡ o
        → ((q : Place)
            → length q.ahead ≤ fuel
            → length q.ahead ≤ other
            → find_all_from re fuel q ≡ find_all_from re other q)
        → elim o as (λ x. List Match) [ none ↦ [] | some m ↦ m ∷ find_all_from re fuel m.to ]
          ≡ elim o as (λ x. List Match) [ none ↦ [] | some m ↦ m ∷ find_all_from re other m.to ]
    go none e later = refl
    go (some m) e later =
        ap (λ ms. m ∷ ms)
          (later m.to (omega (arith, found-lt re p m t e)) (omega (arith, found-lt re p m t e)))

-- For a pattern that takes a rune at least, the fuel of the search for all matches is enough: with
-- more, it finds the same.
pub find_all_enough :
    (re : Re) (s : Text) (fuel : ℕ)
    → TakesSome re
    → length s ≤ fuel
    → find_all_from re fuel (start_of s) ≡ find_all re s
unfolding find_all
find_all_enough re s fuel t h = enough re fuel (length s) (start_of s) t h (omega arith)
