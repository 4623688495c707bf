-- ===== src/Regexp/Language.antt =====
-- The texts that a pattern takes, with no places, order or captures in it, and what a match adds to
-- the captures.
use go_imagefy.Prelude.{
  ℕ, Bool, true, false, ◌&&◌, and-eq-true_iff, [], ◌∷◌, ◌++◌, append_assoc, ◌≡◌, ◌⊎◌, inl, inr,
  refl, sym, ap, ◌∙◌, arith,
}
use go_imagefy.Text.{Text}
use go_imagefy.Regexp.{Re, nothing, one, star, seq, alt, group, boundary, at_end, Place, Captures}
use go_imagefy.Regexp.Syntax.{folded, same_folded}
use go_imagefy.Regexp.Relation.{
  Spans, stay, step, Matches, by_nothing, by_one, by_star, by_seq, by_left, by_right, by_group,
  by_boundary, by_end,
}
use go_imagefy.Regexp.Captured.{AllOf, between-eq}

-- The text is one that the pattern takes, wherever `\\b` and `$` allow it.
abbrev pub Language : Re → Text → Type 0
Language nothing w = w ≡ []
Language (one cls) w = (c : ℕ) × (w ≡ c ∷ []) × (cls c ≡ true)
Language (star greedy cls) w = AllOf cls w
Language (seq r s) w = (u v : Text) × (w ≡ u ++ v) × Language r u × Language s v
Language (alt r s) w = Language r w ⊎ Language s w
Language (group n r) w = Language r w
Language boundary w = w ≡ []
Language at_end w = w ≡ []

Spans-AllOf :
    (cls : ℕ → Bool) {p q : Place}
    → Spans cls p q
    → (w : Text) × (p.ahead ≡ w ++ q.ahead) × AllOf cls w
Spans-AllOf cls stay = ([], refl, tt)
Spans-AllOf cls (step {c} e d) =
    let (w, split, all) = Spans-AllOf cls d in (c ∷ w, ap (λ s. c ∷ s) split, (e, all))

-- A match takes a text of the pattern off what lies ahead.
pub Matches-Language :
    {r : Re} {p q : Place} {caps caps' : Captures}
    → Matches r p caps q caps'
    → (w : Text) × (p.ahead ≡ w ++ q.ahead) × Language r w
Matches-Language by_nothing = ([], refl, refl)
Matches-Language (by_one {c} e) = (c ∷ [], refl, (c, refl, e))
Matches-Language (by_star d) = Spans-AllOf _ d
Matches-Language (by_seq d e) =
    let (u, split, l) = Matches-Language d in
    let (v, split', l') = Matches-Language e in
    (u ++ v, split ∙ ap (λ s. u ++ s) split' ∙ sym (append_assoc u v _), (u, v, refl, l, l'))
Matches-Language (by_left d) = let (w, split, l) = Matches-Language d in (w, split, inl l)
Matches-Language (by_right d) = let (w, split, l) = Matches-Language d in (w, split, inr l)
Matches-Language (by_group d) = Matches-Language d
Matches-Language (by_boundary e) = ([], refl, refl)
Matches-Language by_end = ([], refl, refl)

abbrev pub no_groups : Re → Bool
no_groups (seq r s) = no_groups r && no_groups s
no_groups (alt r s) = no_groups r && no_groups s
no_groups (group n r) = false
no_groups _ = true

-- A pattern without groups adds no captures.
pub Matches-same :
    {r : Re} {p q : Place} {caps caps' : Captures}
    → Matches r p caps q caps'
    → no_groups r ≡ true
    → caps' ≡ caps
Matches-same by_nothing e = refl
Matches-same (by_one h) e = refl
Matches-same (by_star d) e = refl
Matches-same (by_seq {r} {s} d f) e =
    let (left, right) = (and-eq-true_iff (no_groups r) (no_groups s)).0 e in
    Matches-same f right ∙ Matches-same d left
Matches-same (by_left {r} {s} d) e =
    Matches-same d ((and-eq-true_iff (no_groups r) (no_groups s)).0 e).0
Matches-same (by_right {r} {s} d) e =
    Matches-same d ((and-eq-true_iff (no_groups r) (no_groups s)).0 e).1
Matches-same (by_group d) e = absurd (ground arith)
Matches-same (by_boundary h) e = refl
Matches-same by_end e = refl

-- A group adds what it takes.
pub group_taken :
    {n : ℕ} {r : Re} {p q : Place} {caps caps' : Captures}
    → Matches (group n r) p caps q caps'
    → no_groups r ≡ true
    → (w : Text) × (caps' ≡ (n, w) ∷ caps) × (p.ahead ≡ w ++ q.ahead) × Language r w
group_taken {n} (by_group {p} {q} {caps' = inner} d) e =
    let (w, split, l) = Matches-Language d in
    (
      w,
      ap (λ v. (n, v) ∷ inner) (between-eq p q w split) ∙ ap (λ k. (n, w) ∷ k) (Matches-same d e),
      split,
      l,
    )

-- The text is the other, but for the case of letters.
abbrev pub Folds : Text → Text → Type 0
Folds [] w = w ≡ []
Folds (x ∷ s) [] = ⊥
Folds (x ∷ s) (c ∷ w) = (same_folded x c ≡ true) × Folds s w

pub Folds-append : (s t u v : Text) → Folds s u → Folds t v → Folds (s ++ t) (u ++ v)
Folds-append [] t u v e h = rw (e) h
Folds-append (x ∷ s) t [] v e h = absurd e
Folds-append (x ∷ s) t (c ∷ u) v (e, es) h = (e, Folds-append s t u v es h)

pub folded-Folds : (s w : Text) → Language (folded s) w → Folds s w
folded-Folds [] w l = l
folded-Folds (x ∷ s) w (u, v, split, (c, single, e), l) = rw (split, single) (e, folded-Folds s v l)
