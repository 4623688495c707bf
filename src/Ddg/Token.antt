-- ===== src/Ddg/Token.antt =====
-- Tokens of DuckDuckGo.
use go_imagefy.Prelude.{
  ℕ, ◌≤◌, Bool, true, Option, some, none, List, [], ◌∷◌, ◌++◌, append_assoc, ◌≡◌, ◌≢◌, ◌⊎◌, inl,
  refl, sym, ap, ◌∙◌, subst, arith, All, All-map,
}
use go_imagefy.Text.{Text, codes}
use go_imagefy.Text.Search.{Occurs}
use go_imagefy.Platform.{Platform, text_of_bytes}
use go_imagefy.Regexp.{seq, group, Place, Captures, Match, find, captured}
use go_imagefy.Regexp.Syntax.{exactly, plus}
use go_imagefy.Regexp.Relation.{Matches, by_nothing, by_one, by_seq, by_group}
use go_imagefy.Regexp.Captured.{AllOf, between-AllOf, between-append, between-ne-nil}
use go_imagefy.Regexp.Tails.{IsTail, find-IsTail}
use go_imagefy.Config.{no_token}
use go_imagefy.Web.{success, failure}
use go_imagefy.Ddg.{in_token, vqd_re, token_of}

-- A digit of base 16, in small letters, or a dash.
abbrev pub IsTokenRune : ℕ → Type 0
IsTokenRune c = ((b'0' ≤ c) × (c ≤ b'9')) ⊎ (((b'a' ≤ c) × (c ≤ b'f')) ⊎ (c ≡ b'-'))

-- A text of such runes that is not "".
abbrev pub IsToken : Text → Type 0
IsToken w = All IsTokenRune w × (w ≢ [])

in_token_sound : (c : ℕ) → in_token c ≡ true → IsTokenRune c
in_token_sound c e = ground arith

-- A pattern that is a text takes just this text.
exactly-ahead :
    (s : Text) {p q : Place} {caps caps' : Captures}
    → Matches (exactly s) p caps q caps'
    → p.ahead ≡ s ++ q.ahead
exactly-ahead [] by_nothing = refl
exactly-ahead (x ∷ s) (by_seq (by_one e) d) = ground (arith, exactly-ahead s d)

-- What a group of runes takes.
group_taken :
    (cls : ℕ → Bool) {p q : Place} {caps caps' : Captures}
    → Matches (group 1 (plus cls)) p caps q caps'
    → (p.ahead ≡ captured 1 caps' ++ q.ahead)
      × AllOf cls (captured 1 caps')
      × (captured 1 caps' ≢ [])
unfolding captured
group_taken cls (by_group d) =
    (between-append d, between-AllOf cls d (λ c h. h, λ c h. h), between-ne-nil d (inl tt))

-- The group behind a text.
group_behind :
    (cls : ℕ → Bool) (s : Text) {p q : Place} {caps caps' : Captures}
    → Matches (seq (exactly s) (group 1 (plus cls))) p caps q caps'
    → (p.ahead ≡ s ++ (captured 1 caps' ++ q.ahead))
      × AllOf cls (captured 1 caps')
      × (captured 1 caps' ≢ [])
group_behind cls s (by_seq d e) =
    let (ahead, all, ne) = group_taken cls e in
    (exactly-ahead s d ∙ ap (λ t. s ++ t) ahead, all, ne)

module _ ⦃p : Platform⦄ where
  -- Every token that a page gives is not "", is made of the digits of base 16, in small letters, and
  -- dashes, and stands in the page behind "vqd=".
  pub token_of-IsToken :
      (body : List ℕ) (token : Text)
      → token_of (success body) ≡ success token
      → IsToken token × Occurs (codes "vqd=" ++ token) (text_of_bytes body)
  unfolding token_of vqd_re
  token_of-IsToken body token e = go (find vqd_re (text_of_bytes body)) refl e
    where
      of_match :
          (m : Match)
          → IsTail (text_of_bytes body) m.from.ahead
          → Matches vqd_re m.from [] m.to m.captures
          → IsToken (captured 1 m.captures)
            × Occurs (codes "vqd=" ++ captured 1 m.captures) (text_of_bytes body)
      of_match m (before, split) d =
          let (ahead, all, ne) = group_behind in_token (codes "vqd=") d in
          (
            (All-map _ IsTokenRune in_token_sound _ all, ne),
            (
              before,
              m.to.ahead,
              split
                  ∙ ap (λ t. before ++ t)
                      (ahead ∙ sym (append_assoc (codes "vqd=") (captured 1 m.captures) _)),
            ),
          )

      go :
          (o : Option Match)
          → find vqd_re (text_of_bytes body) ≡ o
          → elim o [ none ↦ failure no_token | some m ↦ success (captured 1 m.captures) ]
            ≡ success token
          → IsToken token × Occurs (codes "vqd=" ++ token) (text_of_bytes body)
      go none f h = cc
      go (some m) f h =
          let same : captured 1 m.captures ≡ token = cc in
          let (tail, d) = find-IsTail vqd_re (text_of_bytes body) m f in
          subst (λ t. IsToken t × Occurs (codes "vqd=" ++ t) (text_of_bytes body)) same
            (of_match m tail d)
