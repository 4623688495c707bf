-- ===== src/Assessment/Verdict.antt =====
-- What the verdict of an assessment means in terms of the candidate and the metadata.
use go_imagefy.Prelude.{
  true, Option, List, [], ◌∷◌, ◌++◌, ◌≡◌, ◌≢◌, ◌↔◌, ◌⊎◌, inl, inr, arith, Any, iff_trans, or_iff,
}
use go_imagefy.Text.{Text}
use go_imagefy.Platform.{Platform}
use go_imagefy.License.{
  ImageLicense, license_safe, license_unknown, license_blocked, check_license_with,
}
use go_imagefy.Metadata.{ImageMetadata, is_stock_by_metadata, is_cc_by_metadata}
use go_imagefy.Candidate.{ImageCandidate}
use go_imagefy.Assessment.{
  LicenseSignal, domain_signals, resolve, extra_signals, stock_signals, cc_signals, assess_license,
}

abbrev Says : ImageLicense → List LicenseSignal → Type 0
Says l = Any (λ s. s.license ≡ l)

Any-append_iff {ℓ} :
    {A : Type ℓ} (P : A → Type 0) (xs ys : List A) → Any P (xs ++ ys) ↔ (Any P xs ⊎ Any P ys)
Any-append_iff P [] ys = (inr, λ h. elim h [ inl e ↦ absurd e | inr r ↦ r ])
Any-append_iff P (x ∷ xs) ys = ground (arith, Any-append_iff P xs ys)

-- The loop, with its early exit, finds a blocked signal wherever it stands.
resolve-blocked_iff :
    (final : ImageLicense) (ss : List LicenseSignal)
    → final ≢ license_blocked
    → (resolve final ss ≡ license_blocked) ↔ Says license_blocked ss
unfolding resolve
resolve-blocked_iff final [] h = ground arith
resolve-blocked_iff final (s ∷ ss) h =
    ground (arith, resolve-blocked_iff final ss h, resolve-blocked_iff license_safe ss (λ e. cc))

resolve-safe_iff :
    (final : ImageLicense) (ss : List LicenseSignal)
    → ((resolve final ss ≡ license_safe)
        ↔ (¬ Says license_blocked ss × ((final ≡ license_safe) ⊎ Says license_safe ss)))
unfolding resolve
resolve-safe_iff final [] = ground arith
resolve-safe_iff final (s ∷ ss) =
    ground (arith, resolve-safe_iff final ss, resolve-safe_iff license_safe ss)

-- The candidate has an address, of the image or of its page.
abbrev pub HasAddress : ImageCandidate → Type 0
HasAddress cand = (cand.img_url ≢ []) ⊎ (cand.source ≢ [])

domain_signals_iff :
    (cand : ImageCandidate) (l : ImageLicense)
    → l ≢ license_unknown
    → Says l (domain_signals cand) ↔ (HasAddress cand × (cand.license ≡ l))
unfolding domain_signals
domain_signals_iff cand l known = ground arith

module _ ⦃p : Platform⦄ where
  -- The extended check runs, and finds another licence than the search did.
  abbrev pub Reclassifies : List Text → List Text → ImageCandidate → ImageLicense → Type 0
  Reclassifies eb es cand l =
      ((eb ≢ []) ⊎ (es ≢ []))
      × (check_license_with cand.img_url cand.source eb es ≡ l)
      × (cand.license ≢ l)

  extra_signals_iff :
      (eb es : List Text) (cand : ImageCandidate) (l : ImageLicense)
      → l ≢ license_unknown
      → Says l (extra_signals eb es cand) ↔ Reclassifies eb es cand l
  unfolding extra_signals
  extra_signals_iff eb es cand l known = ground arith

  stock_signals_iff :
      (meta : Option ImageMetadata) (l : ImageLicense)
      → Says l (stock_signals meta) ↔ ((is_stock_by_metadata meta ≡ true) × (license_blocked ≡ l))
  unfolding stock_signals
  stock_signals_iff meta l = ground arith

  cc_signals_iff :
      (meta : Option ImageMetadata) (l : ImageLicense)
      → Says l (cc_signals meta) ↔ ((is_cc_by_metadata meta ≡ true) × (license_safe ≡ l))
  unfolding cc_signals
  cc_signals_iff meta l = ground arith

  module _ (eb es : List Text) (cand : ImageCandidate) (meta : Option ImageMetadata) where
    signals_iff :
        (l : ImageLicense)
        → l ≢ license_unknown
        → Says l (assess_license eb es cand meta).signals ↔ (
            (HasAddress cand × (cand.license ≡ l))
            ⊎ (Reclassifies eb es cand l
                ⊎ (((is_stock_by_metadata meta ≡ true) × (license_blocked ≡ l))
                    ⊎ ((is_cc_by_metadata meta ≡ true) × (license_safe ≡ l)))))
    unfolding assess_license
    signals_iff l known =
        let d = domain_signals cand in
        let e = extra_signals eb es cand in
        let m = stock_signals meta in
        let c = cc_signals meta in
        let is_l = λ (s : LicenseSignal). s.license ≡ l in
        iff_trans (Any-append_iff is_l d (e ++ (m ++ c))) (
          or_iff (domain_signals_iff cand l known) (
            iff_trans (Any-append_iff is_l e (m ++ c)) (
              or_iff (extra_signals_iff eb es cand l known) (
                iff_trans (Any-append_iff is_l m c)
                  (or_iff (stock_signals_iff meta l) (cc_signals_iff meta l))))))

  -- The verdict is "blocked" exactly when a provider marked a candidate with an address so, when
  -- the extended domain check finds a stock site that the search did not, or when the metadata
  -- names a stock agency; no other evidence changes that.
  pub assess_license-eq-blocked_iff :
      (eb es : List Text) (cand : ImageCandidate) (meta : Option ImageMetadata)
      → ((assess_license eb es cand meta).license ≡ license_blocked) ↔ (
          (HasAddress cand × (cand.license ≡ license_blocked))
          ⊎ (Reclassifies eb es cand license_blocked ⊎ (is_stock_by_metadata meta ≡ true)))
  unfolding assess_license
  assess_license-eq-blocked_iff eb es cand meta =
      let sigs = signals_iff eb es cand meta license_blocked (λ e. cc) in
      let res =
        resolve-blocked_iff license_unknown (assess_license eb es cand meta).signals (λ e. cc) in
      ((λ h. ground arith), λ h. ground arith)

  -- The verdict is "safe" exactly when there is no evidence for "blocked", and a provider marked a
  -- candidate with an address as safe, or the extended check finds it safe, or the metadata shows a
  -- Creative Commons licence.
  pub assess_license-eq-safe_iff :
      (eb es : List Text) (cand : ImageCandidate) (meta : Option ImageMetadata)
      → ((assess_license eb es cand meta).license ≡ license_safe) ↔ (
          ¬ (
            (HasAddress cand × (cand.license ≡ license_blocked))
            ⊎ (Reclassifies eb es cand license_blocked ⊎ (is_stock_by_metadata meta ≡ true)))
          × ((HasAddress cand × (cand.license ≡ license_safe))
              ⊎ (Reclassifies eb es cand license_safe ⊎ (is_cc_by_metadata meta ≡ true))))
  unfolding assess_license
  assess_license-eq-safe_iff eb es cand meta =
      let blocked = signals_iff eb es cand meta license_blocked (λ e. cc) in
      let safe = signals_iff eb es cand meta license_safe (λ e. cc) in
      let res = resolve-safe_iff license_unknown (assess_license eb es cand meta).signals in
      ((λ h. ground arith), λ h. ground arith)
