-- ===== src/ImageTag.antt =====
-- provider_content.go: the patterns for tags of a page, and what is read off them.
use go_imagefy.Prelude.{
  Bool, false, not, ◌&&◌, ◌||◌, Option, some, none, List, [], ◌∷◌, is_empty, if◌then◌else◌,
}
use go_imagefy.Text.{Text, codes, trim_space}
use go_imagefy.Paths.{path_base, path_ext, trim_suffix}
use go_imagefy.Regexp.{Re, alt, group, boundary, find, captured}
use go_imagefy.Regexp.Syntax.{folded, exactly, plus, lazy, optional, any_rune, is_digit, ◌>◌}
use go_imagefy.Html.{quote, quoted_group, in_tag, meta_tag}
use go_imagefy.ImageUrl.{content_size_re, parse_int_fast, is_small}

-- `contentSrcRe`, `contentWidthRe`, `contentHeightRe` and `contentImgTagRe`.
unfoldable pub content_src_re : Re
content_src_re = boundary > folded (codes "src=") > quoted_group 1

abbrev pub number_attr : Text → Re
number_attr name =
    boundary > folded name > optional quote > group 1 (plus is_digit) > optional quote

unfoldable pub content_width_re : Re
content_width_re = number_attr (codes "width=")

unfoldable pub content_height_re : Re
content_height_re = number_attr (codes "height=")

unfoldable pub content_img_tag_re : Re
content_img_tag_re = folded (codes "<img") > boundary > in_tag > exactly (codes ">")

-- `(?:name|property)=["']twitter:image["']`.
abbrev pub twitter_name : Re
twitter_name =
    alt (folded (codes "name")) (folded (codes "property"))
    > folded (codes "=")
    > quote
    > folded (codes "twitter:image")
    > quote

unfoldable pub twitter_image_re : Re
twitter_image_re =
    alt (meta_tag > twitter_name > in_tag > folded (codes "content=") > quoted_group 1)
      (meta_tag > folded (codes "content=") > quoted_group 2 > in_tag > twitter_name)

-- `jsonLDScriptRe`.
unfoldable pub json_ld_script_re : Re
json_ld_script_re =
    folded (codes "<script")
    > boundary
    > in_tag
    > folded (codes "type=")
    > quote
    > folded (codes "application/ld+json")
    > quote
    > in_tag
    > exactly (codes ">")
    > group 1 (lazy any_rune)
    > folded (codes "</script>")

-- `extractAttr`.
unfoldable pub extract_attr : Re → Text → Text
extract_attr re s = elim (find re s) [ none ↦ [] | some m ↦ captured 1 m.captures ]

-- Whether both numbers are small.
abbrev pub both_small : Text → Text → Bool
both_small w h = is_small (parse_int_fast w) && is_small (parse_int_fast h)

-- `isTinyThumbnail`.
unfoldable pub is_tiny_thumbnail : Text → Text → Bool
unfolding path_base path_ext trim_suffix content_size_re extract_attr content_width_re
    content_height_re is_small parse_int_fast
is_tiny_thumbnail img_tag src =
    let base = trim_suffix (path_base src) (path_ext src) in
    let by_name : Bool = elim (find content_size_re base) [
      | none ↦ false
      | some m ↦ both_small (captured 1 m.captures) (captured 2 m.captures)
    ] in
    let w = extract_attr content_width_re img_tag in
    let h = extract_attr content_height_re img_tag in
    by_name || ((not (is_empty w) && not (is_empty h)) && both_small w h)

-- `json.Unmarshal` into the types that `extractJSONLDImage` names; `none` is an error.
pub record JsonLd : Type 0 where
  -- Into `map[string]json.RawMessage`, as a lookup.
  pub as_object : Text → Option (Text → Option Text)
  pub as_string : Text → Option Text
  -- Into a struct with the field `url`, which is "" where it is missing.
  pub as_url : Text → Option Text
  pub as_array : Text → Option (List Text)

-- A text that was decoded and is not "", or what is tried next.
abbrev pub nonempty_or : Option Text → Text → Text
nonempty_or none next = next
nonempty_or (some []) next = next
nonempty_or (some (c ∷ s)) next = c ∷ s

module _ (json : JsonLd) where
  -- The first element of an array: a string or an object with an address.
  unfoldable pub image_of_first : Text → Text
  image_of_first raw = elim (json.as_string raw) [
    | some s ↦ s
    | none ↦ elim (json.as_url raw) [ none ↦ [] | some s ↦ s ]
  ]

  unfoldable pub image_of_array : Option (List Text) → Text
  unfolding image_of_first
  image_of_array none = []
  image_of_array (some []) = []
  image_of_array (some (raw ∷ raws)) = image_of_first raw

  -- The value of the field "image".
  unfoldable pub image_of_value : Text → Text
  unfolding image_of_array
  image_of_value raw =
      nonempty_or (json.as_string raw)
        (nonempty_or (json.as_url raw) (image_of_array (json.as_array raw)))

  -- The document, if it is one.
  abbrev pub image_of_document : Option (Text → Option Text) → Text
  image_of_document none = []
  image_of_document (some doc) = elim (doc (codes "image")) [
    | none ↦ []
    | some raw ↦ image_of_value raw
  ]

  -- `extractJSONLDImage`.
  unfoldable pub extract_json_ld_image : Text → Text
  unfolding image_of_value trim_space
  extract_json_ld_image raw =
      let trimmed = trim_space raw in
      if is_empty trimmed then [] else image_of_document (json.as_object trimmed)
