-- ===== src/Assessment/Details.antt =====
-- The evidence of an assessment: what its signals say, and what their details quote.
use go_imagefy.Prelude.{
  ◌≤◌, Bool, true, Option, some, List, [], ◌∷◌, ◌++◌, any, ◌≡◌, ◌≢◌, ◌↔◌, inl, inr, refl, sym,
  subst, arith, Any, All, All-append, Bool-cases, length, length-append,
}
use go_imagefy.Text.{Text}
use go_imagefy.Platform.{Platform}
use go_imagefy.License.{ImageLicense, license_safe, license_unknown}
use go_imagefy.Metadata.{ImageMetadata, is_stock_by_metadata, is_stock_field, stock_fields}
use go_imagefy.Candidate.{ImageCandidate}
use go_imagefy.Assessment.{
  LicenseSignal, domain_signals, resolve, extra_signals, stock_signals, cc_signals, assess_license,
  first_field, metadata_stock_detail,
}

-- The first field that passes the test stands in the list and passes it, if any does.
first_field_lem :
    (test : Text → Bool) (fs : List Text)
    → any test fs ≡ true
    → Any (λ f. f ≡ first_field test fs) fs × (test (first_field test fs) ≡ true)
unfolding first_field any
first_field_lem test [] h = cc
first_field_lem test (f ∷ fs) h = elim (Bool-cases (test f)) [
  | inl hit ↦ (inl (rw hit), rw hit hit)
  | inr miss ↦
      let (listed, ok) = first_field_lem test fs (ground arith) in
      let step : first_field test (f ∷ fs) ≡ first_field test fs = rw miss in
      (inr (subst (λ v. Any (λ g. g ≡ v) fs) (sym step) listed), rw miss ok)
]

-- A licence that counts as evidence.
abbrev pub IsEvidence : LicenseSignal → Type 0
IsEvidence s = s.license ≢ license_unknown

resolve-eq-unknown_iff :
    (final : ImageLicense) (ss : List LicenseSignal)
    → All IsEvidence ss
    → (resolve final ss ≡ license_unknown) ↔ ((final ≡ license_unknown) × (ss ≡ []))
unfolding resolve
resolve-eq-unknown_iff final [] h = ground arith
resolve-eq-unknown_iff final (s ∷ ss) (hs, h) =
    ground (arith, resolve-eq-unknown_iff final ss h, resolve-eq-unknown_iff license_safe ss h)

domain_signals-IsEvidence :
    (cand : ImageCandidate)
    → All IsEvidence (domain_signals cand) × (length (domain_signals cand) ≤ 1)
unfolding domain_signals
domain_signals-IsEvidence cand = ground arith

module _ ⦃p : Platform⦄ where
  extra_signals-IsEvidence :
      (eb es : List Text) (cand : ImageCandidate)
      → All IsEvidence (extra_signals eb es cand) × (length (extra_signals eb es cand) ≤ 1)
  unfolding extra_signals
  extra_signals-IsEvidence eb es cand = ground arith

  metadata_signals-IsEvidence :
      (meta : Option ImageMetadata)
      → All IsEvidence (stock_signals meta ++ cc_signals meta)
        × (length (stock_signals meta ++ cc_signals meta) ≤ 2)
  unfolding stock_signals cc_signals
  metadata_signals-IsEvidence meta = ground arith

  -- An assessment has four signals at most, each of which says "blocked" or "safe"; and the
  -- verdict is "unknown" exactly when there is no signal.
  pub assess_license-signals :
      (eb es : List Text) (cand : ImageCandidate) (meta : Option ImageMetadata)
      → (length (assess_license eb es cand meta).signals ≤ 4)
        × All IsEvidence (assess_license eb es cand meta).signals
        × (((assess_license eb es cand meta).license ≡ license_unknown)
            ↔ ((assess_license eb es cand meta).signals ≡ []))
  unfolding assess_license
  assess_license-signals eb es cand meta =
      let (d, d_len) = domain_signals-IsEvidence cand in
      let (e, e_len) = extra_signals-IsEvidence eb es cand in
      let (m, m_len) = metadata_signals-IsEvidence meta in
      let rest = All-append IsEvidence (extra_signals eb es cand) _ e m in
      let all = All-append IsEvidence (domain_signals cand) _ d rest in
      let verdict =
        resolve-eq-unknown_iff license_unknown (assess_license eb es cand meta).signals all in
      (
        omega (
          arith,
          length-append (domain_signals cand)
              (extra_signals eb es cand ++ (stock_signals meta ++ cc_signals meta)),
          length-append (extra_signals eb es cand) (stock_signals meta ++ cc_signals meta),
        ),
        all,
        ((λ h. (verdict.0 h).1), λ h. verdict.1 (refl, h)),
      )

  -- When the metadata is a stock agency's, the detail of that signal quotes one of the eight credit
  -- fields, and one that names an agency itself.
  pub metadata_stock_detail_lem :
      (meta : ImageMetadata)
      → is_stock_by_metadata (some meta) ≡ true
      → Any (λ f. f ≡ metadata_stock_detail (some meta)) (stock_fields meta)
        × (is_stock_field (metadata_stock_detail (some meta)) ≡ true)
  unfolding is_stock_by_metadata metadata_stock_detail
  metadata_stock_detail_lem meta h = first_field_lem is_stock_field (stock_fields meta) h
