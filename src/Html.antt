-- ===== src/Html.antt =====
-- helpers.go and cclicense.go: what is looked for in the text of a page, by regular expressions.
pub mod Quoted
pub mod Values
pub mod Links
use go_imagefy.Prelude.{
  ℕ, Bool, true, false, Option, some, none, List, [], ◌∷◌, ◌++◌, is_empty, not, if◌then◌else◌,
}
use go_imagefy.Text.{Text, codes}
use go_imagefy.Platform.{Platform, unescape_html}
use go_imagefy.Metadata.{is_cc_license_url}
use go_imagefy.Regexp.{Re, one, alt, group, Match, find, captured}
use go_imagefy.Regexp.Syntax.{folded, among, none_of, many, plus, optional, ◌>◌, is_blank}

abbrev pub quotes : Text
quotes = codes "\"'"

abbrev pub quote : Re
quote = one (among quotes)

-- `["']([^"']+)["']`.
abbrev pub quoted_group : ℕ → Re
quoted_group n = quote > group n (plus (none_of quotes)) > quote

-- `[^>]*`.
abbrev pub in_tag : Re
in_tag = many (none_of (codes ">"))

-- `<meta\s+[^>]*`.
abbrev pub meta_tag : Re
meta_tag = folded (codes "<meta") > plus is_blank > in_tag

-- `ogImageRe`.
abbrev pub og_property : Re
og_property = folded (codes "property=") > quote > folded (codes "og:image") > quote

unfoldable pub og_image_re : Re
og_image_re =
    alt (meta_tag > og_property > in_tag > folded (codes "content=") > quoted_group 1)
      (meta_tag > folded (codes "content=") > quoted_group 2 > in_tag > og_property)

-- `m[1]`, or `m[2]` where that is "".
abbrev pub first_group : Match → Text
first_group m =
    if is_empty (captured 1 m.captures) then captured 2 m.captures else captured 1 m.captures

-- `rel=["']license["']` and `href=`, `content=`.
abbrev pub rel_license : Re
rel_license = folded (codes "rel=") > quote > folded (codes "license") > quote

unfoldable pub cc_rel_href_re : Re
cc_rel_href_re = rel_license > in_tag > folded (codes "href=") > quoted_group 1

unfoldable pub cc_href_rel_re : Re
cc_href_rel_re = folded (codes "href=") > quoted_group 1 > in_tag > rel_license

-- `((?:https?:)?//creativecommons\.org/(?:licenses|publicdomain)/[^"']+)`.
abbrev pub cc_address : Re
cc_address =
    optional (folded (codes "http") > optional (folded (codes "s")) > folded (codes ":"))
    > folded (codes "//creativecommons.org/")
    > alt (folded (codes "licenses")) (folded (codes "publicdomain"))
    > folded (codes "/")
    > plus (none_of quotes)

unfoldable pub cc_bare_href_re : Re
cc_bare_href_re = folded (codes "href=") > quote > group 1 cc_address > quote

unfoldable pub cc_meta_content_re : Re
cc_meta_content_re = folded (codes "content=") > quote > group 1 cc_address > quote

module _ ⦃p : Platform⦄ where
  -- `ExtractOGImageURL`.
  unfoldable pub extract_og_image_url : Text → Text
  extract_og_image_url page = elim (find og_image_re page) [
    | none ↦ []
    | some m ↦ if is_empty (first_group m) then [] else unescape_html (first_group m)
  ]

  -- `matchCCFromRel`.
  unfoldable pub match_cc_from_rel : Re → Text → Text
  match_cc_from_rel re page = elim (find re page) [
    | none ↦ []
    | some m ↦
        let url = unescape_html (captured 1 m.captures) in if is_cc_license_url url then url else []
  ]

  -- `if m := re.FindStringSubmatch(pageHTML); m != nil { return html.UnescapeString(m[1]) }`, with
  -- what is returned where there is no match.
  abbrev pub or_else : Option Match → Text → Text
  or_else none later = later
  or_else (some m) later = unescape_html (captured 1 m.captures)

  -- `ExtractCCLicense`.
  unfoldable pub extract_cc_license : Text → Text
  unfolding match_cc_from_rel
  extract_cc_license page =
      let rel = match_cc_from_rel cc_rel_href_re page in
      let reversed = match_cc_from_rel cc_href_rel_re page in
      if not (is_empty rel)
      then rel
      else if not (is_empty reversed)
      then reversed
      else or_else (find cc_bare_href_re page) (or_else (find cc_meta_content_re page) [])
