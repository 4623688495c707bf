-- ===== src/Html/Quoted.antt =====
-- What the patterns of helpers.go and cclicense.go take off a page: quoted values of attributes.
use go_imagefy.Prelude.{
  ℕ, true, [], ◌∷◌, ◌++◌, append_assoc, ◌≡◌, ◌≢◌, ◌⊎◌, inl, inr, refl, sym, ap, ◌∙◌, any, arith,
  All, All-map,
}
use go_imagefy.Text.{Text, codes, in_cutset}
use go_imagefy.Text.Search.{Occurs}
use go_imagefy.Regexp.{Re, alt, group, Place, Captures}
use go_imagefy.Regexp.Syntax.{none_of, among, plus, optional, folded, ◌>◌}
use go_imagefy.Regexp.Relation.{Matches, by_one, by_seq}
use go_imagefy.Regexp.Tails.{IsTail}
use go_imagefy.Regexp.Language.{
  Language, Matches-Language, no_groups, group_taken, Folds, Folds-append, folded-Folds,
}
use go_imagefy.Html.{quotes, quote, cc_address}

-- A double or a single quote.
abbrev pub IsQuote : ℕ → Type 0
IsQuote c = (c ≡ b'"') ⊎ (c ≡ b'\'')

-- In the page stands the name, but for the case of letters, and right behind it the text between two
-- quotes.
abbrev pub IsQuotedIn : Text → Text → Text → Type 0
IsQuotedIn name page w =
    (front : Text) × (a b : ℕ) × Folds name front
    × IsQuote a
    × IsQuote b
    × Occurs (front ++ (a ∷ (w ++ b ∷ []))) page

-- The text is not "" and holds no quote.
abbrev pub IsUnquoted : Text → Type 0
IsUnquoted w = (w ≢ []) × All (λ c. ¬ IsQuote c) w

among-quotes : (c : ℕ) → among quotes c ≡ true → IsQuote c
unfolding in_cutset any
among-quotes c e = ground arith

none_of-quotes : (c : ℕ) → none_of quotes c ≡ true → ¬ IsQuote c
unfolding in_cutset any
none_of-quotes c e q = ground arith

pub plus-IsUnquoted : (w : Text) → Language (plus (none_of quotes)) w → IsUnquoted w
plus-IsUnquoted w (u, v, split, (c, single, e), all) =
    rw (split, single)
      ((λ h. cc), (none_of-quotes c e, All-map _ (λ c. ¬ IsQuote c) none_of-quotes v all))

-- The value of an attribute.
abbrev pub value : ℕ → Re → Re
value n r = quote > group n r > quote

value_taken :
    {n : ℕ} {r : Re} {p q : Place} {caps caps' : Captures}
    → Matches (value n r) p caps q caps'
    → no_groups r ≡ true
    → (w : Text) × (a b : ℕ) × (caps' ≡ (n, w) ∷ caps)
      × IsQuote a
      × IsQuote b
      × (p.ahead ≡ a ∷ (w ++ b ∷ q.ahead))
      × Language r w
value_taken (by_seq (by_one {c = a} e) (by_seq d (by_one {c = b} f))) g =
    let (w, same, split, l) = group_taken d g in
    (w, a, b, same, among-quotes a e, among-quotes b f, ap (λ s. a ∷ s) split, l)

-- What lies ahead of a place of the page starts with an attribute.
placed :
    (page name front w s rest : Text) (a b : ℕ)
    → IsTail page s
    → s ≡ front ++ (a ∷ (w ++ b ∷ rest))
    → Folds name front
    → IsQuote a
    → IsQuote b
    → IsQuotedIn name page w
placed page name front w s rest a b (before, tail) split folds qa qb =
    let part : front ++ (a ∷ (w ++ b ∷ rest)) ≡ (front ++ (a ∷ (w ++ b ∷ []))) ++ rest =
      ap (λ s. front ++ a ∷ s) (sym (append_assoc w (b ∷ []) rest))
      ∙ sym (append_assoc front (a ∷ (w ++ b ∷ [])) rest) in
    (front, a, b, folds, qa, qb, (before, rest, tail ∙ ap (λ s. before ++ s) (split ∙ part)))

-- An attribute of the page, with its value.
pub attribute_taken :
    {n : ℕ} {r : Re} {p o q : Place} {older caps caps' : Captures} (page name : Text)
    → IsTail page p.ahead
    → Matches (folded name) p older o caps
    → Matches (value n r) o caps q caps'
    → no_groups r ≡ true
    → (w : Text) × (caps' ≡ (n, w) ∷ caps) × IsQuotedIn name page w × Language r w
attribute_taken page name tail d e g =
    let (front, ahead, l) = Matches-Language d in
    let (w, a, b, same, qa, qb, split, l') = value_taken e g in
    (
      w,
      same,
      placed page name front w _ _ a b tail (ahead ∙ ap (λ s. front ++ s) split)
          (folded-Folds name front l) qa qb,
      l',
    )

-- In the page stand the name and, right behind it and between two quotes, the text, but for the case
-- of letters.
abbrev pub HasAttribute : Text → Text → Text → Type 0
HasAttribute name text page = (w : Text) × IsQuotedIn name page w × Folds text w

-- An attribute of the page, with a given value.
pub fixed_taken :
    {p q : Place} {caps caps' : Captures} (page name text : Text)
    → IsTail page p.ahead
    → Matches (folded name > quote > folded text > quote) p caps q caps'
    → HasAttribute name text page
fixed_taken page name text tail
      (by_seq d (by_seq (by_one {c = a} e) (by_seq m (by_one {c = b} f)))) =
    let (front, ahead, l) = Matches-Language d in
    let (w, split, l') = Matches-Language m in
    (
      w,
      placed page name front w _ _ a b tail (ahead ∙ ap (λ s. front ++ s) (ap (λ s. a ∷ s) split))
          (folded-Folds name front l) (among-quotes a e) (among-quotes b f),
      folded-Folds text w l',
    )

-- The address starts, but for the case of letters, with "http:", "https:" or no scheme, then
-- "//creativecommons.org/licenses/" or "//creativecommons.org/publicdomain/", and goes on with a text
-- that is not "" and holds no quote.
abbrev pub IsLicenceAddress : Text → Type 0
IsLicenceAddress w =
    (scheme kind : Text) × ((scheme ≡ []) ⊎ ((scheme ≡ codes "http:") ⊎ (scheme ≡ codes "https:")))
    × ((kind ≡ codes "licenses/") ⊎ (kind ≡ codes "publicdomain/"))
    × (front rest : Text) × (w ≡ front ++ rest)
    × Folds (scheme ++ (codes "//creativecommons.org/" ++ kind)) front
    × IsUnquoted rest

scheme_taken :
    (w : Text)
    → Language
        (optional (folded (codes "http") > optional (folded (codes "s")) > folded (codes ":")))
        w
    → (scheme : Text) × ((scheme ≡ []) ⊎ ((scheme ≡ codes "http:") ⊎ (scheme ≡ codes "https:")))
      × Folds scheme w
scheme_taken w (inr e) = ([], inl refl, e)
scheme_taken w (inl (http, v, e, l, (s, colon, f, inr none_here, k))) = (
  codes "http:",
  inr (inl refl),
  rw (e, f, none_here)
      (Folds-append (codes "http") (codes ":") http colon (folded-Folds (codes "http") http l)
        (folded-Folds (codes ":") colon k)),
)
scheme_taken w (inl (http, v, e, l, (s, colon, f, inl m, k))) = (
  codes "https:",
  inr (inr refl),
  rw (e, f)
      (Folds-append (codes "http") (codes "s:") http (s ++ colon)
        (folded-Folds (codes "http") http l)
        (Folds-append (codes "s") (codes ":") s colon (folded-Folds (codes "s") s m)
          (folded-Folds (codes ":") colon k))),
)

kind_taken :
    (u v : Text)
    → Language (alt (folded (codes "licenses")) (folded (codes "publicdomain"))) u
    → Language (folded (codes "/")) v
    → (kind : Text) × ((kind ≡ codes "licenses/") ⊎ (kind ≡ codes "publicdomain/"))
      × Folds kind (u ++ v)
kind_taken u v (inl l) k = (
  codes "licenses/",
  inl refl,
  Folds-append (codes "licenses") (codes "/") u v (folded-Folds (codes "licenses") u l)
      (folded-Folds (codes "/") v k),
)
kind_taken u v (inr l) k = (
  codes "publicdomain/",
  inr refl,
  Folds-append (codes "publicdomain") (codes "/") u v (folded-Folds (codes "publicdomain") u l)
      (folded-Folds (codes "/") v k),
)

-- What the address group of the patterns takes.
pub address-IsLicenceAddress : (w : Text) → Language cc_address w → IsLicenceAddress w
address-IsLicenceAddress w
      (u, v, e, l, (host, x, f, m, (site, y, g, n, (slash, rest, h, o, tail)))) =
    let (scheme, is_scheme, folds) = scheme_taken u l in
    let (kind, is_kind, folds') = kind_taken site slash n o in
    (
      scheme,
      kind,
      is_scheme,
      is_kind,
      u ++ (host ++ (site ++ slash)),
      rest,
      e
          ∙ ap (λ t. u ++ t) (f ∙ ap (λ t. host ++ t) (g ∙ ap (λ t. site ++ t) h))
          ∙ regroup u host site slash rest,
      Folds-append scheme (codes "//creativecommons.org/" ++ kind) u (host ++ (site ++ slash)) folds
          (Folds-append (codes "//creativecommons.org/") kind host (site ++ slash)
            (folded-Folds (codes "//creativecommons.org/") host m) folds'),
      plus-IsUnquoted rest tail,
    )
  where
    regroup : (a b c d r : Text) → a ++ (b ++ (c ++ (d ++ r))) ≡ (a ++ (b ++ (c ++ d))) ++ r
    regroup a b c d r =
        ap (λ t. a ++ (b ++ t)) (sym (append_assoc c d r))
        ∙ ap (λ t. a ++ t) (sym (append_assoc b (c ++ d) r))
        ∙ sym (append_assoc a (b ++ (c ++ d)) r)
