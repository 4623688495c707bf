-- ===== src/Regexp/Relation.antt =====
-- What it means for a pattern to match from one place to another, with no order of search in it.
use go_imagefy.Prelude.{ℕ, Bool, true, Option, [], ◌∷◌, ◌≡◌}
use go_imagefy.Text.{Text}
use go_imagefy.Regexp.{
  Re, nothing, one, star, seq, alt, group, boundary, at_end, Place, place, after, Captures,
  word_before, word_after, differ, between,
}

-- The places that runes of a class lead to.
pub data Spans (cls : ℕ → Bool) : Place → Place → Type 0 where
  stay : {p : Place} → Spans cls p p
  step :
      {prev : Option ℕ} {c : ℕ} {s : Text} {q : Place}
      → cls c ≡ true
      → Spans cls (after c s) q
      → Spans cls (place prev (c ∷ s)) q

-- The pattern matches from a place to a place, and adds its captures.
pub data Matches : Re → Place → Captures → Place → Captures → Type 0 where
  by_nothing : {p : Place} {caps : Captures} → Matches nothing p caps p caps
  by_one :
      {cls : ℕ → Bool} {prev : Option ℕ} {c : ℕ} {s : Text} {caps : Captures}
      → cls c ≡ true
      → Matches (one cls) (place prev (c ∷ s)) caps (after c s) caps
  by_star :
      {greedy : Bool} {cls : ℕ → Bool} {p q : Place} {caps : Captures}
      → Spans cls p q
      → Matches (star greedy cls) p caps q caps
  by_seq :
      {r s : Re} {p q o : Place} {caps caps' caps'' : Captures}
      → Matches r p caps q caps'
      → Matches s q caps' o caps''
      → Matches (seq r s) p caps o caps''
  by_left :
      {r s : Re} {p q : Place} {caps caps' : Captures}
      → Matches r p caps q caps'
      → Matches (alt r s) p caps q caps'
  by_right :
      {r s : Re} {p q : Place} {caps caps' : Captures}
      → Matches s p caps q caps'
      → Matches (alt r s) p caps q caps'
  by_group :
      {n : ℕ} {r : Re} {p q : Place} {caps caps' : Captures}
      → Matches r p caps q caps'
      → Matches (group n r) p caps q ((n, between p q) ∷ caps')
  by_boundary :
      {p : Place} {caps : Captures}
      → differ (word_before p) (word_after p) ≡ true
      → Matches boundary p caps p caps
  by_end :
      {prev : Option ℕ} {caps : Captures} → Matches at_end (place prev []) caps (place prev []) caps
