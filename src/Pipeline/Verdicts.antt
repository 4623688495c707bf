-- ===== src/Pipeline/Verdicts.antt =====
-- What the stages of `validateOne` decide.
use go_imagefy.Prelude.{
  true, false, not, some, [], ◌≡◌, ◌↔◌, ◌⊎◌, inl, inr, refl, arith, Bool-cases,
}
use go_imagefy.Text.{Text, codes}
use go_imagefy.Text.Search.{text_eq_iff}
use go_imagefy.Platform.{Platform}
use go_imagefy.License.{license_safe, license_unknown}
use go_imagefy.Metadata.{is_stock_by_metadata}
use go_imagefy.Metadata.Tags.{extract_image_metadata}
use go_imagefy.Candidate.{ImageCandidate}
use go_imagefy.Assessment.Verdict.{assess_license-eq-blocked_iff}
use go_imagefy.Classes.{class_photo}
use go_imagefy.Http.{Context}
use go_imagefy.Config.{Config}
use go_imagefy.Config.Environment.{Environment}
use go_imagefy.Validate.{validate_image_url}
use go_imagefy.Reverse.{reverse_check}
use go_imagefy.Classify.{emit_classification, classify_predownloaded}
use go_imagefy.Pipeline.{
  Downloaded, names_extra_domain, is_blocked_by_extra_domains, download_for_validation, fetch,
  is_rejected_class, ask_vision, assessed, judge,
}

real_class_iff :
    (cls : Text) → (not (is_rejected_class cls) ≡ true) ↔ ((cls ≡ class_photo) ⊎ (cls ≡ []))
real_class_iff cls = ground (arith, text_eq_iff cls class_photo)

module _ {W Img Hash F : Type 0} (env : Environment W Img Hash F) ⦃p : Platform⦄ (cfg : Config W F)
    (ctx : Context) (cand : ImageCandidate) (d : Downloaded Img) (w : W) where
  -- The reverse search does not call the image stock, and the vision model, asked next, answers with
  -- the photo class or with none.
  abbrev pub LooksReal : Type 0
  LooksReal =
      let reverse = reverse_check env cfg ctx cand.img_url w in
      let cls =
        (classify_predownloaded env cfg ctx cand.img_url d.bytes d.mime_type reverse.1).0.class in
      (reverse.0.is_stock ≡ false) × ((cls ≡ class_photo) ⊎ (cls ≡ []))

  ask_vision_iff : ((ask_vision env cfg ctx cand d w).0 ≡ true) ↔ LooksReal
  unfolding ask_vision
  ask_vision_iff =
      let reverse = reverse_check env cfg ctx cand.img_url w in
      let cls =
        (classify_predownloaded env cfg ctx cand.img_url d.bytes d.mime_type reverse.1).0.class in
      elim (Bool-cases reverse.0.is_stock) [
        | inl stock ↦ rw (stock, ask_vision) ((λ h. cc), λ h. cc (h.0))
        | inr other ↦
            let real = real_class_iff cls in
            rw (other, ask_vision) ((λ h. (refl, real.0 h)), λ h. real.1 h.1)
      ]

  -- A downloaded image is accepted exactly when its licence is assessed as safe, or when it is
  -- unknown, the reverse search does not call it stock, and the vision model, asked after that,
  -- answers with the photo class or with none.
  pub judge_iff : ((judge env cfg ctx cand d w).0 ≡ true) ↔ (
      (assessed env cfg ctx cand d ≡ license_safe)
      ⊎ ((assessed env cfg ctx cand d ≡ license_unknown) × LooksReal))
  unfolding judge
  judge_iff = ground (arith, ask_vision_iff)

  -- A safe licence costs no reverse search and no call of the vision model: the world is changed by
  -- the audit event alone.
  pub judge_safe :
      assessed env cfg ctx cand d ≡ license_safe
      → judge env cfg ctx cand d w ≡ (
        true,
        (emit_classification cfg cand.img_url class_photo env.floats.one_float
            (codes "license_assessment")
            w).1,
      )
  unfolding judge
  judge_safe e = rw (e, judge)

  -- An image whose metadata names a stock agency is rejected, whatever the provider, the domain
  -- lists, the reverse search and the vision model say.
  pub judge_stock_metadata :
      is_stock_by_metadata (extract_image_metadata env.decode_tags d.bytes) ≡ true
      → (judge env cfg ctx cand d w).0 ≡ false
  unfolding assessed
  judge_stock_metadata stock =
      let meta = extract_image_metadata env.decode_tags d.bytes in
      let blocked =
        (assess_license-eq-blocked_iff cfg.extra_blocked_domains cfg.extra_safe_domains cand meta).1
          (inr (inr stock)) in
      ground (arith, judge_iff, blocked)

module _ {W Img Hash F : Type 0} (env : Environment W Img Hash F) ⦃p : Platform⦄ (cfg : Config W F)
    (ctx : Context) (cand : ImageCandidate) (w : W) where
  -- `validateOne` gets past its first two stages exactly when the address passed the probe and no
  -- extra blocked domain is named by it or by its page.
  pub fetch_iff : ((d : Downloaded Img) × ((fetch env cfg ctx cand w).0 ≡ some d)) ↔ (
      ((validate_image_url env cfg ctx cand.img_url w).0 ≡ true)
      × (names_extra_domain cfg.extra_blocked_domains cand ≡ false))
  unfolding fetch is_blocked_by_extra_domains
  fetch_iff = elim (Bool-cases (validate_image_url env cfg ctx cand.img_url w).0) [
    | inl valid ↦ elim (Bool-cases (names_extra_domain cfg.extra_blocked_domains cand)) [
      | inl named ↦
          rw (valid, named, fetch, is_blocked_by_extra_domains) ((λ h. cc (h.1)), λ h. cc (h.1))
      | inr other ↦
          rw (valid, other, fetch, is_blocked_by_extra_domains)
            ((λ h. (refl, refl)), λ h. (_, refl))
    ]
    | inr invalid ↦ rw (invalid, fetch) ((λ h. cc (h.1)), λ h. cc (h.0))
  ]

  -- What goes on to the later stages is what `downloadForValidation` gives after the probe.
  pub fetch_sound :
      (d : Downloaded Img)
      → (fetch env cfg ctx cand w).0 ≡ some d
      → ((validate_image_url env cfg ctx cand.img_url w).0 ≡ true)
        × (names_extra_domain cfg.extra_blocked_domains cand ≡ false)
        × ((download_for_validation env cfg ctx cand.img_url
              (validate_image_url env cfg ctx cand.img_url w).1).0
            ≡ d)
  unfolding fetch is_blocked_by_extra_domains
  fetch_sound d e = ground arith
