-- ===== src/Html/Values.antt =====
-- The groups of a match of the patterns of helpers.go and cclicense.go: values of attributes.
use go_imagefy.Prelude.{[], ◌≡◌, ◌⊎◌, inl, inr, refl}
use go_imagefy.Text.{Text, codes}
use go_imagefy.Regexp.{Place, Captures, captured}
use go_imagefy.Regexp.Relation.{Matches, by_seq, by_left, by_right}
use go_imagefy.Regexp.Tails.{IsTail, Matches-IsTail}
use go_imagefy.Regexp.Language.{Matches-same}
use go_imagefy.Html.{
  og_image_re, cc_rel_href_re, cc_href_rel_re, cc_bare_href_re, cc_meta_content_re,
}
use go_imagefy.Html.Quoted.{
  IsQuotedIn, IsUnquoted, IsLicenceAddress, HasAttribute, attribute_taken, fixed_taken,
  plus-IsUnquoted, address-IsLicenceAddress,
}

-- The page has the text, without quotes and not "", as the value of an attribute of that name.
abbrev pub IsValueIn : Text → Text → Text → Type 0
IsValueIn name page w = IsQuotedIn name page w × IsUnquoted w

-- The two forms of a match: its value is the first group, or the second one, with nothing in the
-- first; and the page has `property="og:image"`.
pub og_groups :
    {p q : Place} {caps' : Captures} (page : Text)
    → IsTail page p.ahead
    → Matches og_image_re p [] q caps'
    → HasAttribute (codes "property=") (codes "og:image") page
      × (IsValueIn (codes "content=") page (captured 1 caps')
          ⊎ ((captured 1 caps' ≡ []) × IsValueIn (codes "content=") page (captured 2 caps')))
unfolding og_image_re captured
og_groups page tail (by_left (by_seq m (by_seq o (by_seq t (by_seq n v))))) =
    let front = Matches-IsTail page m tail in
    let at = Matches-IsTail page t (Matches-IsTail page o front) in
    let (w, same, quoted, l) = attribute_taken page (codes "content=") at n v refl in
    (
      fixed_taken page (codes "property=") (codes "og:image") front o,
      inl (rw (same) (quoted, plus-IsUnquoted w l)),
    )
og_groups page tail (by_right (by_seq m (by_seq n (by_seq v (by_seq t o))))) =
    let front = Matches-IsTail page m tail in
    let at = Matches-IsTail page t (Matches-IsTail page v (Matches-IsTail page n front)) in
    let (w, same, quoted, l) = attribute_taken page (codes "content=") front n v refl in
    (
      fixed_taken page (codes "property=") (codes "og:image") at o,
      inr (
          rw
            (
              Matches-same o refl,
              Matches-same t refl,
              same,
              Matches-same n refl,
              Matches-same m refl,
            )
            (refl, (quoted, plus-IsUnquoted w l))),
    )

-- The first group holds the value of an attribute of that name, with what is asked of the value.
abbrev pub HasValue : Text → (Text → Type 0) → Text → Captures → Type 0
HasValue name P page caps = IsQuotedIn name page (captured 1 caps) × P (captured 1 caps)

pub rel_href-HasValue :
    {p q : Place} {caps' : Captures} (page : Text)
    → IsTail page p.ahead
    → Matches cc_rel_href_re p [] q caps'
    → HasValue (codes "href=") IsUnquoted page caps'
      × HasAttribute (codes "rel=") (codes "license") page
unfolding cc_rel_href_re captured
rel_href-HasValue page tail (by_seq r (by_seq t (by_seq n v))) =
    let at = Matches-IsTail page t (Matches-IsTail page r tail) in
    let (w, same, quoted, l) = attribute_taken page (codes "href=") at n v refl in
    (
      rw (same) (quoted, plus-IsUnquoted w l),
      fixed_taken page (codes "rel=") (codes "license") tail r,
    )

pub href_rel-HasValue :
    {p q : Place} {caps' : Captures} (page : Text)
    → IsTail page p.ahead
    → Matches cc_href_rel_re p [] q caps'
    → HasValue (codes "href=") IsUnquoted page caps'
      × HasAttribute (codes "rel=") (codes "license") page
unfolding cc_href_rel_re captured
href_rel-HasValue page tail (by_seq n (by_seq v (by_seq t r))) =
    let (w, same, quoted, l) = attribute_taken page (codes "href=") tail n v refl in
    (
      rw (Matches-same r refl, Matches-same t refl, same) (quoted, plus-IsUnquoted w l),
      fixed_taken page (codes "rel=") (codes "license")
          (Matches-IsTail page t (Matches-IsTail page v (Matches-IsTail page n tail))) r,
    )

pub bare_href-HasValue :
    {p q : Place} {caps' : Captures} (page : Text)
    → IsTail page p.ahead
    → Matches cc_bare_href_re p [] q caps'
    → HasValue (codes "href=") IsLicenceAddress page caps'
unfolding cc_bare_href_re captured
bare_href-HasValue page tail (by_seq n v) =
    let (w, same, quoted, l) = attribute_taken page (codes "href=") tail n v refl in
    rw (same) (quoted, address-IsLicenceAddress w l)

pub meta_content-HasValue :
    {p q : Place} {caps' : Captures} (page : Text)
    → IsTail page p.ahead
    → Matches cc_meta_content_re p [] q caps'
    → HasValue (codes "content=") IsLicenceAddress page caps'
unfolding cc_meta_content_re captured
meta_content-HasValue page tail (by_seq n v) =
    let (w, same, quoted, l) = attribute_taken page (codes "content=") tail n v refl in
    rw (same) (quoted, address-IsLicenceAddress w l)
