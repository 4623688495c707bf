-- ===== src/Metadata.antt =====
-- metadata.go: the rights fields of an image, and the stock agencies and Creative Commons
-- addresses that are looked for in them. cclicense.go: `IsCCLicenseURL`.
pub mod Words
pub mod Boundaries
pub mod Rounds
pub mod Keywords
pub mod Tags
use go_imagefy.Prelude.{
  ℕ, zero, suc, ◌+◌, ◌-◌, Bool, true, false, ◌||◌, ◌&&◌, not, Option, some, none, List, [], ◌∷◌,
  any, is_empty, if◌then◌else◌, ltb, leb, ◌==◌, length, get_elem?,
}
use go_imagefy.Text.{Text, codes, contains, index, drop}
use go_imagefy.Platform.{Platform, to_lower}
use Words.{contains_word}

pub record ImageMetadata : Type 0 where
  pub exif_copyright : Text
  pub exif_artist : Text
  pub iptc_copyright : Text
  pub iptc_credit : Text
  pub iptc_source : Text
  pub iptc_byline : Text
  pub xmp_license : Text
  pub xmp_web_statement : Text
  pub xmp_usage_terms : Text
  pub xmp_marked : Bool
  pub dc_rights : Text
  pub dc_creator : Text

unfoldable pub stock_metadata_keywords : List Text
stock_metadata_keywords =
    codes "shutterstock"
    ∷ codes "gettyimages"
    ∷ codes "getty images"
    ∷ codes "istockphoto"
    ∷ codes "istock"
    ∷ codes "alamy"
    ∷ codes "depositphotos"
    ∷ codes "dreamstime"
    ∷ codes "123rf"
    ∷ codes "adobestock"
    ∷ codes "adobe stock"
    ∷ codes "bigstockphoto"
    ∷ codes "stocksy"
    ∷ codes "pond5"
    ∷ codes "masterfile"
    ∷ codes "superstock"
    ∷ codes "agefotostock"
    ∷ codes "age fotostock"
    ∷ codes "colourbox"
    ∷ codes "yayimages"
    ∷ codes "vectorstock"
    ∷ codes "freepik"
    ∷ codes "canstockphoto"
    ∷ []

-- The fields that are searched for an agency, in order.
unfoldable pub stock_fields : ImageMetadata → List Text
stock_fields meta =
    meta.exif_copyright ∷ meta.exif_artist ∷ meta.iptc_copyright ∷ meta.iptc_credit
    ∷ meta.iptc_source ∷ meta.iptc_byline ∷ meta.dc_rights ∷ meta.dc_creator ∷ []

-- The fields that may hold a licence address, in order.
unfoldable pub cc_fields : ImageMetadata → List Text
cc_fields meta =
    meta.xmp_license ∷ meta.xmp_web_statement ∷ meta.xmp_usage_terms ∷ meta.dc_rights ∷ []

unfoldable pub cc_license_path_segments : List Text
cc_license_path_segments =
    codes "creativecommons.org/licenses/" ∷ codes "creativecommons.org/publicdomain/" ∷ []

module _ ⦃p : Platform⦄ where
  -- The body of the loop over fields: a field with a keyword in it.
  unfoldable pub is_stock_field : Text → Bool
  is_stock_field f =
      if is_empty f
      then false
      else let low = to_lower f in any (contains_word low) stock_metadata_keywords

  -- `IsStockByMetadata`; `none` is a nil pointer.
  unfoldable pub is_stock_by_metadata : Option ImageMetadata → Bool
  is_stock_by_metadata none = false
  is_stock_by_metadata (some meta) = any is_stock_field (stock_fields meta)

  unfoldable pub is_cc_license_url : Text → Bool
  is_cc_license_url raw_url =
      if is_empty raw_url
      then false
      else let low = to_lower raw_url in any (contains low) cc_license_path_segments

  unfoldable pub is_cc_by_metadata : Option ImageMetadata → Bool
  is_cc_by_metadata none = false
  is_cc_by_metadata (some meta) = any is_cc_license_url (cc_fields meta)
