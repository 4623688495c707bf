-- ===== src/Regexp/Tails.antt =====
-- The places of a text, and that a leftmost match starts at one of them.
use go_imagefy.Prelude.{
  ℕ, Option, some, none, [], ◌∷◌, ◌++◌, append_assoc, ◌≡◌, refl, sym, ap, ◌∙◌, subst,
}
use go_imagefy.Text.{Text}
use go_imagefy.Regexp.{Re, Place, Captures, between, Match, find}
use go_imagefy.Regexp.Relation.{Matches}
use go_imagefy.Regexp.Leftmost.{Leftmost, starts_here, goes_on, Finds, find-Finds}
use go_imagefy.Regexp.Captured.{between-append}

-- What lies ahead of a place of the text is an end of the text.
abbrev pub IsTail : Text → Text → Type 0
IsTail s t = (before : Text) × (s ≡ before ++ t)

pub Matches-IsTail :
    {r : Re} {p q : Place} {caps caps' : Captures} (s : Text)
    → Matches r p caps q caps'
    → IsTail s p.ahead
    → IsTail s q.ahead
Matches-IsTail {p} {q} s d (before, e) = (
  before ++ between p q,
  e ∙ ap (λ t. before ++ t) (between-append d) ∙ sym (append_assoc before _ _),
)

-- A leftmost match starts at a place of the text.
pub Leftmost-IsTail :
    {re : Re} {prev : Option ℕ} {t : Text} {m : Match} (s : Text)
    → Leftmost re prev t m
    → IsTail s t
    → IsTail s m.from.ahead × Matches re m.from [] m.to m.captures
Leftmost-IsTail s (starts_here e d) i = (subst (λ p. IsTail s p.ahead) (sym e) i, d)
Leftmost-IsTail s (goes_on {c} n l) (before, e) =
    Leftmost-IsTail s l (before ++ c ∷ [], e ∙ sym (append_assoc before (c ∷ []) _))

-- The match that is found in a text, from a place of the text.
pub find-IsTail :
    (re : Re) (s : Text) (m : Match)
    → find re s ≡ some m
    → IsTail s m.from.ahead × Matches re m.from [] m.to m.captures
find-IsTail re s m e = Leftmost-IsTail s (subst (Finds re none s) e (find-Finds re s)) ([], refl)
