-- ===== src/Metadata/Tags.antt =====
-- metadata_tags.go and `ExtractImageMetadata` of metadata.go: the handlers that collect the fields
-- from the tags that the decoder of `bep/imagemeta` meets. The decoder is a parameter: it gives
-- the tags of an image in order, and whether it ended with an error.
pub mod Fields
use go_imagefy.Prelude.{
  ℕ, Bool, true, false, ◌||◌, Option, some, none, List, [], ◌∷◌, any, is_empty, if◌then◌else◌,
}
use go_imagefy.Text.{Text, codes, text_eq}
use go_imagefy.Metadata.{ImageMetadata}

-- `imagemeta.Source`, as far as the program asks for it.
pub data TagSource : Type 0 where
  exif iptc xmp : TagSource

-- The dynamic type of a tag's value.
mutual
  pub data TagValue : Type 0 where
    string_value : Text → TagValue
    strings_value : List Text → TagValue
    any_values : TagValues → TagValue
    bool_value : Bool → TagValue
    other_value : TagValue

  pub data TagValues : Type 0 where
    nil : TagValues
    cons : TagValue → TagValues → TagValues

pub record TagInfo : Type 0 where
  pub source : TagSource
  pub tag : Text
  pub value : TagValue

-- `val[0].(string)`, or "".
abbrev pub string_or_empty : TagValue → Text
string_or_empty (string_value s) = s
string_or_empty _ = []

-- `tagValueString`.
unfoldable pub tag_value_string : TagValue → Text
tag_value_string (string_value s) = s
tag_value_string (strings_value []) = []
tag_value_string (strings_value (s ∷ rest)) = s
tag_value_string (any_values nil) = []
tag_value_string (any_values (cons v rest)) = string_or_empty v
tag_value_string _ = []

-- What the handlers share: `meta` and `found`.
pub record Collected : Type 0 where
  pub meta : ImageMetadata
  pub found : Bool

abbrev pub keep : ImageMetadata → Collected
keep meta = record { meta = meta; found = true }

-- `handleIPTCTag`.
unfoldable pub handle_iptc_tag : Collected → TagInfo → Collected
handle_iptc_tag c ti =
    let s = tag_value_string ti.value in
    if is_empty s
    then c
    else if text_eq ti.tag (codes "CopyrightNotice")
    then keep (record c.meta { iptc_copyright = s })
    else if text_eq ti.tag (codes "Credit")
    then keep (record c.meta { iptc_credit = s })
    else if text_eq ti.tag (codes "Byline")
    then keep (record c.meta { iptc_byline = s })
    else if text_eq ti.tag (codes "Source")
    then keep (record c.meta { iptc_source = s })
    else c

-- `handleEXIFTag`.
unfoldable pub handle_exif_tag : Collected → TagInfo → Collected
handle_exif_tag c ti =
    let s = tag_value_string ti.value in
    if is_empty s
    then c
    else if text_eq ti.tag (codes "Copyright")
    then keep (record c.meta { exif_copyright = s })
    else if text_eq ti.tag (codes "Artist")
    then keep (record c.meta { exif_artist = s })
    else c

-- The case "Marked" of `handleXMPTag`: only a boolean counts.
abbrev pub set_marked : Collected → TagValue → Collected
set_marked c (bool_value b) = keep (record c.meta { xmp_marked = b })
set_marked c _ = c

-- `handleXMPTag`.
unfoldable pub handle_xmp_tag : Collected → TagInfo → Collected
handle_xmp_tag c ti =
    let s = tag_value_string ti.value in
    if text_eq ti.tag (codes "Marked")
    then set_marked c ti.value
    else if text_eq ti.tag (codes "WebStatement")
    then (if is_empty s then c else keep (record c.meta { xmp_web_statement = s }))
    else if text_eq ti.tag (codes "UsageTerms")
    then (if is_empty s then c else keep (record c.meta { xmp_usage_terms = s }))
    else if text_eq ti.tag (codes "License")
    then (if is_empty s then c else keep (record c.meta { xmp_license = s }))
    else if text_eq ti.tag (codes "Rights")
    then (if is_empty s then c else keep (record c.meta { dc_rights = s }))
    else if text_eq ti.tag (codes "Creator")
    then (if is_empty s then c else keep (record c.meta { dc_creator = s }))
    else c

-- The switch of `HandleTag`.
unfoldable pub handle_tag : Collected → TagInfo → Collected
handle_tag c ti = elim ti.source [
  | exif ↦ handle_exif_tag c ti
  | iptc ↦ handle_iptc_tag c ti
  | xmp ↦ handle_xmp_tag c ti
]

-- `wantedTags`.
unfoldable pub wanted_tags : TagSource → List Text
wanted_tags iptc = codes "CopyrightNotice" ∷ codes "Credit" ∷ codes "Byline" ∷ codes "Source" ∷ []
wanted_tags exif = codes "Copyright" ∷ codes "Artist" ∷ []
wanted_tags xmp =
    codes "WebStatement"
    ∷ codes "UsageTerms"
    ∷ codes "License"
    ∷ codes "Marked"
    ∷ codes "Rights"
    ∷ codes "Creator"
    ∷ []

-- `ShouldHandleTag`.
unfoldable pub should_handle_tag : TagInfo → Bool
unfolding any
should_handle_tag ti = any (text_eq ti.tag) (wanted_tags ti.source)

-- What `imagemeta.Decode` makes of the callbacks: `HandleTag` is called on each wanted tag.
unfoldable pub collect_tags : Collected → List TagInfo → Collected
collect_tags c [] = c
collect_tags c (ti ∷ tis) = collect_tags (if should_handle_tag ti then handle_tag c ti else c) tis

abbrev pub empty_metadata : ImageMetadata
empty_metadata = record {
  exif_copyright = [];
  exif_artist = [];
  iptc_copyright = [];
  iptc_credit = [];
  iptc_source = [];
  iptc_byline = [];
  xmp_license = [];
  xmp_web_statement = [];
  xmp_usage_terms = [];
  xmp_marked = false;
  dc_rights = [];
  dc_creator = [];
}

-- What the decoder gives for an image: its tags in order, and whether it failed.
pub record Decoded : Type 0 where
  pub tags : List TagInfo
  pub failed : Bool

-- `ExtractImageMetadata`; `none` is nil.
unfoldable pub extract_image_metadata : (List ℕ → Decoded) → List ℕ → Option ImageMetadata
extract_image_metadata decode [] = none
extract_image_metadata decode (b ∷ bs) =
    let decoded = decode (b ∷ bs) in
    let result = collect_tags (record { meta = empty_metadata; found = false }) decoded.tags in
    if decoded.failed then none else if result.found then some result.meta else none
