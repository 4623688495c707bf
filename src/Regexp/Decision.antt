-- ===== src/Regexp/Decision.antt =====
-- The search for matches at a place, against the relation.
use go_imagefy.Prelude.{
  ℕ, Bool, true, false, Option, some, List, [], ◌∷◌, ◌≡◌, ◌↔◌, ◌⊎◌, inl, inr, refl, subst,
  Bool-cases,
}
use go_imagefy.Text.{Text}
use go_imagefy.Regexp.{
  Re, nothing, one, star, seq, alt, group, boundary, at_end, Place, place, Captures, word_before,
  word_after, differ, between, add_here, star_ends, runs,
}
use go_imagefy.Regexp.Members.{
  In, first, later, In-left, In-right, In-either, In-single, In-flat_map, flat_map-In,
}
use go_imagefy.Regexp.Relation.{
  Spans, stay, step, Matches, by_nothing, by_one, by_star, by_seq, by_left, by_right, by_group,
  by_boundary, by_end,
}

In-add_here :
    (greedy : Bool) (more : List Place) (here : Place) {q : Place}
    → In q (add_here greedy more here)
    → (here ≡ q) ⊎ In q more
In-add_here true more here h = elim (In-either more (here ∷ []) h) [
  | inl i ↦ inr i
  | inr e ↦ inl (In-single e)
]
In-add_here false more here first = inl refl
In-add_here false more here (later h) = inr h

add_here-here :
    (greedy : Bool) (more : List Place) (here : Place) → In here (add_here greedy more here)
add_here-here true more here = In-right more first
add_here-here false more here = first

add_here-more :
    (greedy : Bool) {more : List Place} (here : Place) {q : Place}
    → In q more
    → In q (add_here greedy more here)
add_here-more true here h = In-left _ h
add_here-more false here h = later h

star_ends-Spans :
    (greedy : Bool) (cls : ℕ → Bool) (prev : Option ℕ) (s : Text) {q : Place}
    → In q (star_ends greedy cls prev s)
    → Spans cls (place prev s) q
unfolding star_ends
star_ends-Spans greedy cls prev [] h = subst (Spans cls _) (In-single h) stay
star_ends-Spans greedy cls prev (c ∷ s) {q} h = elim (Bool-cases (cls c)) [
  | inr out ↦ subst (Spans cls _) (In-single (rw (out) at h)) stay
  | inl ok ↦ elim (In-add_here greedy _ _ (rw (ok) at h)) [
    | inl here ↦ subst (Spans cls _) here stay
    | inr more ↦ step ok (star_ends-Spans greedy cls (some c) s more)
  ]
]

here-star_ends :
    (greedy : Bool) (cls : ℕ → Bool) (prev : Option ℕ) (s : Text)
    → In (place prev s) (star_ends greedy cls prev s)
unfolding star_ends
here-star_ends greedy cls prev [] = first
here-star_ends greedy cls prev (c ∷ s) = elim (Bool-cases (cls c)) [
  | inl ok ↦ rw (ok) (add_here-here greedy _ _)
  | inr out ↦ rw (out) first
]

Spans-star_ends :
    (greedy : Bool) {cls : ℕ → Bool} {p q : Place}
    → Spans cls p q
    → In q (star_ends greedy cls p.previous p.ahead)
unfolding star_ends
Spans-star_ends greedy {cls} {p} stay = here-star_ends greedy cls p.previous p.ahead
Spans-star_ends greedy (step ok more) =
    rw (ok) (add_here-more greedy _ (Spans-star_ends greedy more))

one-Matches :
    (cls : ℕ → Bool) (prev : Option ℕ) (s : Text) (caps : Captures) {m : Place × Captures}
    → In m (runs (one cls) (place prev s) caps)
    → Matches (one cls) (place prev s) caps m.0 m.1
unfolding runs
one-Matches cls prev [] caps h = elim h [ ]
one-Matches cls prev (c ∷ s) caps {m} h = elim (Bool-cases (cls c)) [
  | inl ok ↦
      subst (λ m. Matches (one cls) (place prev (c ∷ s)) caps m.0 m.1) (In-single (rw (ok) at h))
        (by_one ok)
  | inr out ↦ elim (rw (out) at h) [ ]
]

end-Matches :
    (prev : Option ℕ) (s : Text) (caps : Captures) {m : Place × Captures}
    → In m (runs at_end (place prev s) caps)
    → Matches at_end (place prev s) caps m.0 m.1
unfolding runs
end-Matches prev [] caps h =
    subst (λ m. Matches at_end (place prev []) caps m.0 m.1) (In-single h) by_end
end-Matches prev (c ∷ s) caps h = elim h [ ]

-- What the search finds is a match.
pub runs-Matches :
    (r : Re) (p : Place) (caps : Captures) {m : Place × Captures}
    → In m (runs r p caps)
    → Matches r p caps m.0 m.1
unfolding runs
runs-Matches nothing p caps h = subst (λ m. Matches nothing p caps m.0 m.1) (In-single h) by_nothing
runs-Matches (one cls) p caps h = one-Matches cls p.previous p.ahead caps h
runs-Matches (star greedy cls) p caps h =
    let (q, i, e) = flat_map-In (λ q. (q, caps) ∷ []) (star_ends greedy cls p.previous p.ahead) h in
    subst (λ m. Matches (star greedy cls) p caps m.0 m.1) (In-single e)
      (by_star (star_ends-Spans greedy cls p.previous p.ahead i))
runs-Matches (seq r s) p caps h =
    let (m, i, j) = flat_map-In _ _ h in by_seq (runs-Matches r p caps i) (runs-Matches s m.0 m.1 j)
runs-Matches (alt r s) p caps h = elim (In-either (runs r p caps) _ h) [
  | inl i ↦ by_left (runs-Matches r p caps i)
  | inr i ↦ by_right (runs-Matches s p caps i)
]
runs-Matches (group n r) p caps h =
    let (m, i, e) = flat_map-In (λ m. (m.0, (n, between p m.0) ∷ m.1) ∷ []) (runs r p caps) h in
    subst (λ m. Matches (group n r) p caps m.0 m.1) (In-single e)
      (by_group (runs-Matches r p caps i))
runs-Matches boundary p caps h = elim (Bool-cases (differ (word_before p) (word_after p))) [
  | inl ok ↦
      subst (λ m. Matches boundary p caps m.0 m.1) (In-single (rw (ok) at h)) (by_boundary ok)
  | inr out ↦ elim (rw (out) at h) [ ]
]
runs-Matches at_end p caps h = end-Matches p.previous p.ahead caps h

-- Every match is found.
pub Matches-runs :
    {r : Re} {p q : Place} {caps caps' : Captures}
    → Matches r p caps q caps'
    → In (q, caps') (runs r p caps)
unfolding runs
Matches-runs by_nothing = first
Matches-runs (by_one ok) = rw (ok) first
Matches-runs (by_star {greedy} {caps} h) =
    In-flat_map (λ q. (q, caps) ∷ []) (Spans-star_ends greedy h) first
Matches-runs (by_seq h k) = In-flat_map _ (Matches-runs h) (Matches-runs k)
Matches-runs (by_left h) = In-left _ (Matches-runs h)
Matches-runs (by_right {r} {p} {caps} h) = In-right (runs r p caps) (Matches-runs h)
Matches-runs (by_group {n} {p} h) =
    In-flat_map (λ m. (m.0, (n, between p m.0) ∷ m.1) ∷ []) (Matches-runs h) first
Matches-runs (by_boundary ok) = rw (ok) first
Matches-runs by_end = first

-- The search for the matches of a pattern at a place finds exactly those that there are.
pub runs_iff :
    (r : Re) (p : Place) (caps : Captures) (q : Place) (caps' : Captures)
    → In (q, caps') (runs r p caps) ↔ Matches r p caps q caps'
runs_iff r p caps q caps' = (runs-Matches r p caps, Matches-runs)
