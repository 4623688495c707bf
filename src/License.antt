-- ===== src/License.antt =====
-- license.go: the verdict on an image's address and on the page that it comes from.
pub mod Verdict
pub mod Extras
use Prim.Native.String.{String}
use go_imagefy.Prelude.{
  Bool, true, false, ◌||◌, ◌&&◌, not, Option, some, none, List, [], ◌∷◌, map, ℕ, any, is_empty,
  if◌then◌else◌,
}
use go_imagefy.Text.{Text, codes, contains}
use go_imagefy.Platform.{Platform, Url, parse_url, to_lower}

pub data ImageLicense : Type 0 where
  license_safe license_unknown license_blocked : ImageLicense

-- The value of the Go constant, by which candidates are sorted.
abbrev pub rank : ImageLicense → ℕ
rank license_safe = 0
rank license_unknown = 1
rank license_blocked = 2

-- `ImageLicense.String`.
unfoldable pub license_string : ImageLicense → Text
license_string license_safe = codes "safe"
license_string license_blocked = codes "blocked"
license_string license_unknown = codes "unknown"

abbrev pub is_license_blocked : ImageLicense → Bool
is_license_blocked license_blocked = true
is_license_blocked _ = false

unfoldable pub blocked_domains : List Text
blocked_domains =
    codes "shutterstock"
    ∷ codes "gettyimages"
    ∷ codes "istockphoto"
    ∷ codes "adobestock"
    ∷ codes "depositphotos"
    ∷ codes "dreamstime"
    ∷ codes "123rf"
    ∷ codes "alamy"
    ∷ codes "bigstockphoto"
    ∷ codes "stocksy"
    ∷ codes "eyeem"
    ∷ codes "pond5"
    ∷ codes "thinkstockphotos"
    ∷ codes "canstockphoto"
    ∷ codes "masterfile"
    ∷ codes "superstock"
    ∷ codes "agefotostock"
    ∷ codes "colourbox"
    ∷ codes "photodune"
    ∷ codes "yayimages"
    ∷ codes "vectorstock"
    ∷ codes "loriimages"
    ∷ codes "fotobank"
    ∷ codes "freepik"
    ∷ codes "canva."
    ∷ codes "clipartof"
    ∷ codes "featurepics"
    ∷ codes "rfclipart"
    ∷ []

unfoldable pub blocked_url_patterns : List Text
blocked_url_patterns =
    codes "/stock-photo"
    ∷ codes "/stock-image"
    ∷ codes "/editorial-image"
    ∷ codes "/premium-photo"
    ∷ []

unfoldable pub safe_domains : List Text
safe_domains =
    codes "unsplash"
    ∷ codes "pexels"
    ∷ codes "pixabay"
    ∷ codes "wikimedia"
    ∷ codes "commons.wikimedia"
    ∷ codes "flickr"
    ∷ codes "rawpixel"
    ∷ codes "stocksnap"
    ∷ codes "burst.shopify"
    ∷ codes "kaboompics"
    ∷ codes "picjumbo"
    ∷ []

-- `d != "" && strings.Contains(host, d)`, the test on an extra domain.
abbrev pub extra_match : Text → Text → Bool
extra_match host d = not (is_empty d) && contains host d

module _ ⦃p : Platform⦄ where
  -- `isBlockedWith` after a successful parse.
  unfoldable pub is_blocked_url : Url → List Text → Bool
  is_blocked_url url extra =
      let host = to_lower url.host in
      let path = to_lower url.path in
      (not (is_empty host) && (any (contains host) blocked_domains || any (extra_match host) extra))
      || any (contains path) blocked_url_patterns

  unfoldable pub is_blocked_with : Text → List Text → Bool
  unfolding is_blocked_url
  is_blocked_with raw_url extra =
      if is_empty raw_url
      then false
      else elim (parse_url raw_url) [ none ↦ false | some url ↦ is_blocked_url url extra ]

  unfoldable pub extract_host : Text → Text
  extract_host raw_url = elim (parse_url raw_url) [ none ↦ [] | some url ↦ to_lower url.host ]

  unfoldable pub is_safe_with : Text → List Text → Bool
  unfolding extract_host
  is_safe_with raw_url extra =
      let host = extract_host raw_url in
      if is_empty host
      then false
      else (any (contains host) safe_domains || any (extra_match host) extra)

  unfoldable pub check_license_with : Text → Text → List Text → List Text → ImageLicense
  check_license_with image_url source_url extra_blocked extra_safe =
      if any (λ u. is_blocked_with u extra_blocked) (image_url ∷ source_url ∷ [])
      then license_blocked
      else if any (λ u. is_safe_with u extra_safe) (image_url ∷ source_url ∷ [])
      then license_safe
      else license_unknown

  unfoldable pub check_license : Text → Text → ImageLicense
  unfolding check_license_with
  check_license image_url source_url = check_license_with image_url source_url [] []
