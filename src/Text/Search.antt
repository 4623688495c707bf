-- ===== src/Text/Search.antt =====
-- What the searches of `strings` find: equality, prefixes, substrings and positions.
use go_imagefy.Prelude.{
  ◌≡◌, ◌↔◌, inl, inr, refl, ap, sym, subst, true, [], ◌∷◌, ◌++◌, arith, Bool-cases,
}
use go_imagefy.Text.{Text, text_eq, has_prefix, contains}

pub text_eq_iff : (s t : Text) → (text_eq s t ≡ true) ↔ (s ≡ t)
unfolding text_eq
text_eq_iff [] [] = ground arith
text_eq_iff [] (d ∷ t) = ground arith
text_eq_iff (c ∷ s) [] = ground arith
text_eq_iff (c ∷ s) (d ∷ t) = ground (arith, text_eq_iff s t)

pub text_eq_refl : (s : Text) → text_eq s s ≡ true
text_eq_refl s = (text_eq_iff s s).1 refl

-- `w` stands somewhere in `s`.
abbrev pub Occurs : Text → Text → Type 0
Occurs w s = (before after : Text) × (s ≡ before ++ (w ++ after))

abbrev pub StartsWith : Text → Text → Type 0
StartsWith p s = (rest : Text) × (s ≡ p ++ rest)

pub has_prefix-append : (p rest : Text) → has_prefix (p ++ rest) p ≡ true
unfolding has_prefix
has_prefix-append [] [] = refl
has_prefix-append [] (c ∷ rest) = refl
has_prefix-append (c ∷ p) rest = ground (arith, has_prefix-append p rest)

pub has_prefix_sound : (s p : Text) → has_prefix s p ≡ true → StartsWith p s
unfolding has_prefix
has_prefix_sound [] [] h = ([], refl)
has_prefix_sound (d ∷ s) [] h = (d ∷ s, refl)
has_prefix_sound [] (c ∷ p) h = cc
has_prefix_sound (d ∷ s) (c ∷ p) h =
    let (rest, e) = has_prefix_sound s p (ground arith) in (rest, ground arith)

pub has_prefix_iff : (s p : Text) → (has_prefix s p ≡ true) ↔ StartsWith p s
has_prefix_iff s p = (
  has_prefix_sound s p,
  λ r. subst (λ t. has_prefix t p ≡ true) (sym r.1) (has_prefix-append p r.0),
)

pub contains_sound : (s w : Text) → contains s w ≡ true → Occurs w s
unfolding contains
contains_sound [] w h = let (rest, e) = has_prefix_sound [] w h in ([], rest, e)
contains_sound (c ∷ s) w h = elim (Bool-cases (has_prefix (c ∷ s) w)) [
  | inl here ↦ let (rest, e) = has_prefix_sound (c ∷ s) w here in ([], rest, e)
  | inr not_here ↦
      let (before, after, e) = contains_sound s w (ground arith) in
      (c ∷ before, after, ap (λ t. c ∷ t) e)
]

contains_of_has_prefix : (s w : Text) → has_prefix s w ≡ true → contains s w ≡ true
unfolding contains
contains_of_has_prefix [] w h = h
contains_of_has_prefix (c ∷ s) w h = ground arith

pub contains-append : (before w after : Text) → contains (before ++ (w ++ after)) w ≡ true
unfolding contains
contains-append [] w after = contains_of_has_prefix _ w (has_prefix-append w after)
contains-append (c ∷ before) w after = ground (arith, contains-append before w after)

-- `strings.Contains` decides whether the substring occurs.
pub contains_iff : (s w : Text) → (contains s w ≡ true) ↔ Occurs w s
contains_iff s w = (
  contains_sound s w,
  λ o. subst (λ t. contains t w ≡ true) (sym o.2) (contains-append o.0 w o.1),
)
