-- ===== src/Regexp/Captured.antt =====
-- Which runes a match takes, and how many.
use go_imagefy.Prelude.{
  ℕ, ◌<◌, ◌≤◌, ◌-◌, Bool, true, [], ◌∷◌, ◌++◌, length, take, append_assoc, length-append, ◌≡◌, ◌≢◌,
  ◌⊎◌, inl, inr, refl, sym, ap, ◌∙◌, subst, arith, All, All-append,
}
use go_imagefy.Text.{Text}
use go_imagefy.Regexp.{
  Re, nothing, one, star, seq, alt, group, boundary, at_end, Place, Captures, between,
}
use go_imagefy.Regexp.Relation.{
  Spans, stay, step, Matches, by_nothing, by_one, by_star, by_seq, by_left, by_right, by_group,
  by_boundary, by_end,
}

-- Every rune that the pattern takes is of the class.
abbrev pub TakesOnly : (ℕ → Bool) → Re → Type 0
TakesOnly cls nothing = Unit
TakesOnly cls (one own) = (c : ℕ) → own c ≡ true → cls c ≡ true
TakesOnly cls (star greedy own) = (c : ℕ) → own c ≡ true → cls c ≡ true
TakesOnly cls (seq r s) = TakesOnly cls r × TakesOnly cls s
TakesOnly cls (alt r s) = TakesOnly cls r × TakesOnly cls s
TakesOnly cls (group n r) = TakesOnly cls r
TakesOnly cls boundary = Unit
TakesOnly cls at_end = Unit

-- The pattern takes a rune at least.
abbrev pub TakesSome : Re → Type 0
TakesSome nothing = ⊥
TakesSome (one own) = Unit
TakesSome (star greedy own) = ⊥
TakesSome (seq r s) = TakesSome r ⊎ TakesSome s
TakesSome (alt r s) = TakesSome r × TakesSome s
TakesSome (group n r) = TakesSome r
TakesSome boundary = ⊥
TakesSome at_end = ⊥

abbrev pub AllOf : (ℕ → Bool) → Text → Type 0
AllOf cls = All (λ c. cls c ≡ true)

Spans-AllOf :
    (cls own : ℕ → Bool)
    → ((c : ℕ) → own c ≡ true → cls c ≡ true)
    → {p q : Place} → Spans own p q
    → (w : Text) × (p.ahead ≡ w ++ q.ahead) × AllOf cls w
Spans-AllOf cls own h stay = ([], refl, tt)
Spans-AllOf cls own h (step {c} e d) =
    let (w, split, all) = Spans-AllOf cls own h d in (c ∷ w, ap (λ s. c ∷ s) split, (h c e, all))

Matches-AllOf :
    (cls : ℕ → Bool) {r : Re} {p q : Place} {caps caps' : Captures}
    → Matches r p caps q caps'
    → TakesOnly cls r
    → (w : Text) × (p.ahead ≡ w ++ q.ahead) × AllOf cls w
Matches-AllOf cls by_nothing t = ([], refl, tt)
Matches-AllOf cls (by_one {c} e) t = (c ∷ [], refl, (t c e, tt))
Matches-AllOf cls (by_star d) t = Spans-AllOf cls _ t d
Matches-AllOf cls (by_seq d e) (t, u) =
    let (w, split, all) = Matches-AllOf cls d t in
    let (v, split', all') = Matches-AllOf cls e u in
    (w ++ v, split ∙ ap (λ s. w ++ s) split' ∙ sym (append_assoc w v _), All-append _ w v all all')
Matches-AllOf cls (by_left d) (t, u) = Matches-AllOf cls d t
Matches-AllOf cls (by_right d) (t, u) = Matches-AllOf cls d u
Matches-AllOf cls (by_group d) t = Matches-AllOf cls d t
Matches-AllOf cls (by_boundary e) t = ([], refl, tt)
Matches-AllOf cls by_end t = ([], refl, tt)

take-all : (w s : Text) (n : ℕ) → n ≡ length w → take n (w ++ s) ≡ w
take-all [] s n e = rw (e)
take-all (c ∷ w) s n e = rw (e) (ap (λ t. c ∷ t) (take-all w s (length w) refl))

pub between-eq : (p q : Place) (w : Text) → p.ahead ≡ w ++ q.ahead → between p q ≡ w
between-eq p q w split =
    ap (λ s. take (length s - length q.ahead) s) split
    ∙ take-all w q.ahead _ (omega (arith, length-append w q.ahead))

-- The text of a match is made of the runes that its pattern takes.
pub between-AllOf :
    (cls : ℕ → Bool) {r : Re} {p q : Place} {caps caps' : Captures}
    → Matches r p caps q caps'
    → TakesOnly cls r
    → AllOf cls (between p q)
between-AllOf cls {p} {q} d t =
    let (w, split, all) = Matches-AllOf cls d t in
    subst (AllOf cls) (sym (between-eq p q w split)) all

-- Every pattern takes runes of some class.
takes_any : (r : Re) → TakesOnly (λ c. true) r
takes_any nothing = tt
takes_any (one own) = λ c e. refl
takes_any (star greedy own) = λ c e. refl
takes_any (seq r s) = (takes_any r, takes_any s)
takes_any (alt r s) = (takes_any r, takes_any s)
takes_any (group n r) = takes_any r
takes_any boundary = tt
takes_any at_end = tt

pub between-append :
    {r : Re} {p q : Place} {caps caps' : Captures}
    → Matches r p caps q caps'
    → p.ahead ≡ between p q ++ q.ahead
between-append {r} {p} {q} d =
    let (w, split, all) = Matches-AllOf (λ c. true) d (takes_any r) in
    subst (λ v. p.ahead ≡ v ++ q.ahead) (sym (between-eq p q w split)) split

Spans-le : {cls : ℕ → Bool} {p q : Place} → Spans cls p q → length q.ahead ≤ length p.ahead
Spans-le stay = omega arith
Spans-le (step e d) = omega (arith, Spans-le d)

Matches-le :
    {r : Re} {p q : Place} {caps caps' : Captures}
    → Matches r p caps q caps'
    → length q.ahead ≤ length p.ahead
Matches-le {p} {q} d =
    omega (arith, ap length (between-append d), length-append (between p q) q.ahead)

pub Matches-lt :
    {r : Re} {p q : Place} {caps caps' : Captures}
    → Matches r p caps q caps'
    → TakesSome r
    → length q.ahead < length p.ahead
Matches-lt by_nothing t = absurd t
Matches-lt (by_one e) t = omega arith
Matches-lt (by_star d) t = absurd t
Matches-lt (by_seq d e) (inl t) = omega (arith, Matches-lt d t, Matches-le e)
Matches-lt (by_seq d e) (inr t) = omega (arith, Matches-le d, Matches-lt e t)
Matches-lt (by_left d) t = Matches-lt d t.0
Matches-lt (by_right d) t = Matches-lt d t.1
Matches-lt (by_group d) t = Matches-lt d t
Matches-lt (by_boundary e) t = absurd t
Matches-lt by_end t = absurd t

pub between-ne-nil :
    {r : Re} {p q : Place} {caps caps' : Captures}
    → Matches r p caps q caps'
    → TakesSome r
    → between p q ≢ []
between-ne-nil {p} {q} d t e = omega (
  arith,
  Matches-lt d t,
  ap length (between-append d),
  length-append (between p q) q.ahead,
  ap length e,
)
