-- ===== src/Html/Links.antt =====
-- What ExtractOGImageURL and ExtractCCLicense read off a page.
use go_imagefy.Prelude.{
  true, false, Option, some, none, [], ◌∷◌, is_empty, ◌≡◌, if◌then◌else◌, not, ◌⊎◌, inl, inr, refl,
  subst, Bool-cases, Option-cases,
}
use go_imagefy.Text.{Text, codes}
use go_imagefy.Platform.{Platform, unescape_html}
use go_imagefy.Metadata.{is_cc_license_url}
use go_imagefy.Regexp.{Re, Match, find, captured}
use go_imagefy.Regexp.Relation.{Matches}
use go_imagefy.Regexp.Leftmost.{Leftmost, Nowhere, Finds, find-Finds}
use go_imagefy.Regexp.Tails.{IsTail, find-IsTail}
use go_imagefy.Html.{
  og_image_re, first_group, extract_og_image_url, cc_rel_href_re, cc_href_rel_re, cc_bare_href_re,
  cc_meta_content_re, match_cc_from_rel, or_else, extract_cc_license,
}
use go_imagefy.Html.Quoted.{IsQuotedIn, IsUnquoted, HasAttribute, IsLicenceAddress}
use go_imagefy.Html.Values.{
  IsValueIn, og_groups, HasValue, rel_href-HasValue, href_rel-HasValue, bare_href-HasValue,
  meta_content-HasValue,
}

is_empty-ne : (w : Text) → IsUnquoted w → is_empty w ≡ false
is_empty-ne [] h = absurd (h.0 refl)
is_empty-ne (c ∷ w) h = refl

module _ ⦃p : Platform⦄ where
  -- What is read off a match is its first group, unescaped, or its second group, unescaped, where the
  -- first is "": the quoted value behind a `content=` of the page, which has `property="og:image"`.
  abbrev pub FromMatch : Text → Match → Text → Type 0
  FromMatch page m url =
      HasAttribute (codes "property=") (codes "og:image") page
      × ((IsValueIn (codes "content=") page (captured 1 m.captures)
            × (url ≡ unescape_html (captured 1 m.captures)))
          ⊎ ((captured 1 m.captures ≡ [])
              × IsValueIn (codes "content=") page (captured 2 m.captures)
              × (url ≡ unescape_html (captured 2 m.captures))))

  -- Either the pattern matches nowhere in the page and the result is "", or the result is a group of
  -- the leftmost of its matches, unescaped: the first group, or the second where the first is "".
  -- That group is not "", holds no quote, and stands between quotes behind `content=` in the page,
  -- which has `property="og:image"`, letter case aside.
  pub extract_og_image_url-FromMatch :
      (page : Text)
      → (Nowhere og_image_re none page × (extract_og_image_url page ≡ []))
        ⊎ ((m : Match) × Leftmost og_image_re none page m
            × FromMatch page m (extract_og_image_url page))
  unfolding extract_og_image_url
  extract_og_image_url-FromMatch page =
      go (find og_image_re page) refl (find-Finds og_image_re page)
    where
      read : Option Match → Text
      read o = elim o [
        | none ↦ []
        | some m ↦ if is_empty (first_group m) then [] else unescape_html (first_group m)
      ]

      of_match :
          (m : Match)
          → HasAttribute (codes "property=") (codes "og:image") page
            × (IsValueIn (codes "content=") page (captured 1 m.captures)
                ⊎ ((captured 1 m.captures ≡ [])
                    × IsValueIn (codes "content=") page (captured 2 m.captures)))
          → FromMatch page m (read (some m))
      of_match m (og, inl h) = (og, inl (h, rw (is_empty-ne _ h.1, is_empty-ne _ h.1) refl))
      of_match m (og, inr (e, h)) = (og, inr (e, h, rw (e, is_empty-ne _ h.1) refl))

      go :
          (o : Option Match)
          → find og_image_re page ≡ o
          → Finds og_image_re none page (find og_image_re page)
          → (Nowhere og_image_re none page × (read o ≡ []))
            ⊎ ((m : Match) × Leftmost og_image_re none page m × FromMatch page m (read o))
      go none e l = inl (subst (Finds og_image_re none page) e l, refl)
      go (some m) e l =
          let (tail, d) = find-IsTail og_image_re page m e in
          inr (m, subst (Finds og_image_re none page) e l, of_match m (og_groups page tail d))

module _ ⦃p : Platform⦄ where
  -- An accepted licence address of a page with `rel="license"`: the unescaped value of a `href=`.
  abbrev pub IsAcceptedLink : Text → Text → Type 0
  IsAcceptedLink page url =
      (is_cc_license_url url ≡ true)
      × HasAttribute (codes "rel=") (codes "license") page
      × ((w : Text) × IsValueIn (codes "href=") page w × (url ≡ unescape_html w))

  match_cc_from_rel-IsAcceptedLink :
      (re : Re) (page : Text)
      → ((m : Match)
          → IsTail page m.from.ahead
          → Matches re m.from [] m.to m.captures
          → HasValue (codes "href=") IsUnquoted page m.captures
            × HasAttribute (codes "rel=") (codes "license") page)
      → (match_cc_from_rel re page ≡ []) ⊎ IsAcceptedLink page (match_cc_from_rel re page)
  unfolding match_cc_from_rel
  match_cc_from_rel-IsAcceptedLink re page takes = elim (Option-cases (find re page)) [
    | inl e ↦ rw (e, match_cc_from_rel) (inl refl)
    | inr (m, e) ↦
        let (tail, d) = find-IsTail re page m e in
        elim (Bool-cases (is_cc_license_url (unescape_html (captured 1 m.captures)))) [
          | inl ok ↦
              rw (e, match_cc_from_rel, ok)
                (let (value, rel) = takes m tail d in
                  inr (ok, rel, (captured 1 m.captures, value, refl)))
          | inr bad ↦ rw (e, match_cc_from_rel, bad) (inl refl)
        ]
  ]

  -- Neither of the two other patterns matches, and the text is "", or the text is the unescaped licence
  -- address of a `href=` of the page, or of a `content=` where no `href=` has one.
  abbrev pub IsBareLink : Text → Text → Type 0
  IsBareLink page url =
      (Nowhere cc_bare_href_re none page × Nowhere cc_meta_content_re none page × (url ≡ []))
      ⊎ ((w : Text) × IsLicenceAddress w
          × (url ≡ unescape_html w)
          × (IsQuotedIn (codes "href=") page w
              ⊎ (Nowhere cc_bare_href_re none page × IsQuotedIn (codes "content=") page w)))

  or_else-IsBareLink :
      (page : Text)
      → IsBareLink page
          (or_else (find cc_bare_href_re page) (or_else (find cc_meta_content_re page) []))
  or_else-IsBareLink page = elim (Option-cases (find cc_bare_href_re page)) [
    | inr (m, e) ↦
        let (tail, d) = find-IsTail cc_bare_href_re page m e in
        let (quoted, is_address) = bare_href-HasValue page tail d in
        rw (e) (inr (captured 1 m.captures, is_address, refl, inl quoted))
    | inl e ↦
        let nowhere = subst (Finds cc_bare_href_re none page) e (find-Finds cc_bare_href_re page) in
        elim (Option-cases (find cc_meta_content_re page)) [
          | inr (m, f) ↦
              let (tail, d) = find-IsTail cc_meta_content_re page m f in
              let (quoted, is_address) = meta_content-HasValue page tail d in
              rw (e, f) (inr (captured 1 m.captures, is_address, refl, inr (nowhere, quoted)))
          | inl f ↦
              rw (e, f)
                (inl (
                  nowhere,
                  subst (Finds cc_meta_content_re none page) f (find-Finds cc_meta_content_re page),
                  refl,
                ))
        ]
  ]

  -- The result of the first of the two `rel="license"` patterns that gives one, or what the others
  -- give where neither does.
  abbrev pub FromQuoted : Text → Text → Type 0
  FromQuoted page url =
      let rel = match_cc_from_rel cc_rel_href_re page in
      let reversed = match_cc_from_rel cc_href_rel_re page in
      (((url ≡ rel) ⊎ ((rel ≡ []) × (url ≡ reversed))) × IsAcceptedLink page url)
      ⊎ ((rel ≡ []) × (reversed ≡ []) × IsBareLink page url)

  -- The result is that of the pattern with `rel="license"` in front of `href=`, or that of the pattern
  -- with the two the other way round where the first gives "", and then the page has
  -- `rel="license"`, letter case aside, and the result is an accepted licence address, the unescaped
  -- form of a text that stands in the page between quotes behind `href=`, is not "" and holds no
  -- quote. Or both patterns give "", and either the bare `href=` pattern and the `content=` pattern
  -- match nowhere in the page and the result is "", or the result is the unescaped form of a Creative
  -- Commons address (a scheme "http:", "https:" or none, the host, "licenses/" or "publicdomain/",
  -- letter case aside, and something behind it) that stands in the page between quotes behind
  -- `href=`, or, where the bare `href=` pattern matches nowhere, behind `content=`.
  pub extract_cc_license-FromQuoted : (page : Text) → FromQuoted page (extract_cc_license page)
  unfolding extract_cc_license
  extract_cc_license-FromQuoted page =
      choose (match_cc_from_rel cc_rel_href_re page) (match_cc_from_rel cc_href_rel_re page)
        (match_cc_from_rel-IsAcceptedLink cc_rel_href_re page (λ m. rel_href-HasValue page))
        (match_cc_from_rel-IsAcceptedLink cc_href_rel_re page (λ m. href_rel-HasValue page))
        (or_else-IsBareLink page)
    where
      choose :
          (a b : Text) {rest : Text}
          → (a ≡ []) ⊎ IsAcceptedLink page a
          → (b ≡ []) ⊎ IsAcceptedLink page b
          → IsBareLink page rest
          → let url = if not (is_empty a) then a else if not (is_empty b) then b else rest in
            (((url ≡ a) ⊎ ((a ≡ []) × (url ≡ b))) × IsAcceptedLink page url)
            ⊎ ((a ≡ []) × (b ≡ []) × IsBareLink page url)
      choose [] [] h k r = inr (refl, refl, r)
      choose [] (c ∷ b) h (inl e) r = cc
      choose [] (c ∷ b) h (inr k) r = inl (inr (refl, refl), k)
      choose (c ∷ a) b (inl e) k r = cc
      choose (c ∷ a) b (inr h) k r = inl (inl refl, h)
