-- ===== src/Metadata/Keywords.antt =====
-- When metadata counts as a stock agency's, and when as a Creative Commons licence.
use go_imagefy.Prelude.{
  true, some, [], ◌∷◌, any, ◌≡◌, ◌≢◌, ◌↔◌, refl, arith, All, Any, any_iff_of, All-pure, All-map,
}
use go_imagefy.Text.{Text, contains}
use go_imagefy.Text.Search.{Occurs, contains_iff}
use go_imagefy.Platform.{Platform, to_lower}
use go_imagefy.Metadata.Words.{contains_word}
use go_imagefy.Metadata.Boundaries.{WordIn, IsVaried}
use go_imagefy.Metadata.Rounds.{contains_word_iff}
use go_imagefy.Metadata.{
  ImageMetadata, stock_metadata_keywords, stock_fields, cc_fields, cc_license_path_segments,
  is_stock_field, is_stock_by_metadata, is_cc_license_url, is_cc_by_metadata,
}

keywords-IsVaried : All IsVaried stock_metadata_keywords
unfolding stock_metadata_keywords
keywords-IsVaried = omega arith

module _ ⦃p : Platform⦄ where
  -- The field is not empty, and an agency's name stands in it as a word, whatever its case.
  abbrev pub NamesAgency : Text → Type 0
  NamesAgency f = (f ≢ []) × Any (λ kw. WordIn kw (to_lower f)) stock_metadata_keywords

  abbrev pub NamesLicence : Text → Type 0
  NamesLicence f = (f ≢ []) × Any (λ seg. Occurs seg (to_lower f)) cc_license_path_segments

  keyword_search :
      (low : Text)
      → (any (contains_word low) stock_metadata_keywords ≡ true)
        ↔ Any (λ kw. WordIn kw low) stock_metadata_keywords
  keyword_search low =
      any_iff_of (contains_word low) (λ kw. WordIn kw low) stock_metadata_keywords
        (All-map IsVaried _ (λ kw v. contains_word_iff low kw v) stock_metadata_keywords
          keywords-IsVaried)

  is_stock_field_iff : (f : Text) → (is_stock_field f ≡ true) ↔ NamesAgency f
  unfolding is_stock_field
  is_stock_field_iff [] = ((λ h. cc), λ h. absurd (h.0 refl))
  is_stock_field_iff (c ∷ f) =
      let found = keyword_search (to_lower (c ∷ f)) in
      ((λ h. ((λ e. cc), found.0 h)), λ h. found.1 h.1)

  is_cc_license_url_iff : (f : Text) → (is_cc_license_url f ≡ true) ↔ NamesLicence f
  unfolding is_cc_license_url
  is_cc_license_url_iff [] = ((λ h. cc), λ h. absurd (h.0 refl))
  is_cc_license_url_iff (c ∷ f) =
      let low = to_lower (c ∷ f) in
      let found =
        any_iff_of (contains low) (λ seg. Occurs seg low) cc_license_path_segments
          (All-pure _ (λ seg. contains_iff low seg) cc_license_path_segments) in
      ((λ h. ((λ e. cc), found.0 h)), λ h. found.1 h.1)

  -- Metadata is a stock agency's exactly when one of its eight credit fields has an agency's name
  -- in it as a word, whatever the case of the letters.
  pub is_stock_by_metadata_iff :
      (meta : ImageMetadata)
      → (is_stock_by_metadata (some meta) ≡ true) ↔ Any NamesAgency (stock_fields meta)
  unfolding is_stock_by_metadata
  is_stock_by_metadata_iff meta =
      any_iff_of is_stock_field NamesAgency (stock_fields meta)
        (All-pure _ is_stock_field_iff (stock_fields meta))

  -- Metadata shows a Creative Commons licence exactly when one of its four rights fields holds the
  -- address of a licence or of a public domain dedication, whatever the case of the letters.
  pub is_cc_by_metadata_iff :
      (meta : ImageMetadata)
      → (is_cc_by_metadata (some meta) ≡ true) ↔ Any NamesLicence (cc_fields meta)
  unfolding is_cc_by_metadata
  is_cc_by_metadata_iff meta =
      any_iff_of is_cc_license_url NamesLicence (cc_fields meta)
        (All-pure _ is_cc_license_url_iff (cc_fields meta))
