-- ===== src/Assessment.antt =====
-- assessment.go: `AssessLicense` gathers signals from the domains and the metadata, and resolves
-- them into a verdict.
pub mod Verdict
pub mod Details
use go_imagefy.Prelude.{
  Bool, true, false, ◌||◌, ◌&&◌, not, Option, some, none, List, [], ◌∷◌, ◌++◌, any, is_empty,
  if◌then◌else◌,
}
use go_imagefy.Text.{Text, codes}
use go_imagefy.Platform.{Platform}
use go_imagefy.License.{
  ImageLicense, license_safe, license_unknown, license_blocked, license_string, check_license_with,
}
use go_imagefy.Metadata.{
  ImageMetadata, stock_fields, cc_fields, is_stock_field, is_stock_by_metadata, is_cc_by_metadata,
}
use go_imagefy.Candidate.{ImageCandidate}

pub record LicenseSignal : Type 0 where
  pub source : Text
  pub detail : Text
  pub license : ImageLicense

pub record LicenseAssessment : Type 0 where
  pub license : ImageLicense
  pub signals : List LicenseSignal

-- `a == b` on licences.
abbrev pub same_license : ImageLicense → ImageLicense → Bool
same_license license_safe license_safe = true
same_license license_unknown license_unknown = true
same_license license_blocked license_blocked = true
same_license _ _ = false

abbrev pub signal : Text → Text → ImageLicense → LicenseSignal
signal source detail license = record { source = source; detail = detail; license = license }

-- Signal 1: the licence that the provider set; only for a candidate with an address.
unfoldable pub domain_signals : ImageCandidate → List LicenseSignal
domain_signals cand =
    if not (is_empty cand.img_url) || not (is_empty cand.source)
    then elim cand.license [
      | license_blocked ↦
          signal (codes "domain") (codes "blocked by search-time domain check: " ++ cand.source)
            license_blocked
          ∷ []
      | license_safe ↦
          signal (codes "domain") (codes "safe by search-time domain check: " ++ cand.source)
            license_safe
          ∷ []
      | license_unknown ↦ []
    ]
    else []

-- `for _, f := range fields { … return f }; return ""`: the first field that passes the test.
unfoldable pub first_field : (Text → Bool) → List Text → Text
first_field p [] = []
first_field p (f ∷ fs) = let rest = first_field p fs in if p f then f else rest

-- The resolution loop: a blocked signal ends it, a safe one is remembered in `final`.
unfoldable pub resolve : ImageLicense → List LicenseSignal → ImageLicense
resolve final [] = final
resolve final (s ∷ ss) = elim s.license [
  | license_blocked ↦ license_blocked
  | license_safe ↦ resolve license_safe ss
  | license_unknown ↦ resolve final ss
]

module _ ⦃p : Platform⦄ where
  -- Signal 2: the extended domain check, only where it changes the licence.
  unfoldable pub extra_signals : List Text → List Text → ImageCandidate → List LicenseSignal
  extra_signals extra_blocked extra_safe cand =
      if not (is_empty extra_blocked) || not (is_empty extra_safe)
      then (let ext = check_license_with cand.img_url cand.source extra_blocked extra_safe in
          if not (same_license ext cand.license) && not (same_license ext license_unknown)
          then signal (codes "extra_domain")
              (codes "reclassified by extended domain check: " ++ license_string ext) ext
            ∷ []
          else [])
      else []

  -- `metadataStockDetail`.
  unfoldable pub metadata_stock_detail : Option ImageMetadata → Text
  metadata_stock_detail none = []
  metadata_stock_detail (some meta) = first_field is_stock_field (stock_fields meta)

  -- `metadataCCDetail`.
  unfoldable pub metadata_cc_detail : Option ImageMetadata → Text
  metadata_cc_detail none = []
  metadata_cc_detail (some meta) = first_field (λ f. not (is_empty f)) (cc_fields meta)

  -- Signal 3: a stock agency in the metadata.
  unfoldable pub stock_signals : Option ImageMetadata → List LicenseSignal
  stock_signals meta =
      if is_stock_by_metadata meta
      then signal (codes "metadata_stock")
          (codes "stock agency detected in metadata: " ++ metadata_stock_detail meta)
          license_blocked
        ∷ []
      else []

  -- Signal 4: a Creative Commons licence in the metadata.
  unfoldable pub cc_signals : Option ImageMetadata → List LicenseSignal
  cc_signals meta =
      if is_cc_by_metadata meta
      then signal (codes "metadata_cc")
          (codes "Creative Commons license in metadata: " ++ metadata_cc_detail meta) license_safe
        ∷ []
      else []

  -- `Config.AssessLicense`; of the configuration it reads the two extra lists.
  unfoldable pub assess_license :
      List Text → List Text → ImageCandidate → Option ImageMetadata → LicenseAssessment
  assess_license extra_blocked extra_safe cand meta =
      let signals =
        domain_signals cand
        ++ (extra_signals extra_blocked extra_safe cand
            ++ (stock_signals meta ++ cc_signals meta)) in
      record { license = resolve license_unknown signals; signals = signals }
