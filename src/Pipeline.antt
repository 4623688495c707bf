-- ===== src/Pipeline.antt =====
-- validate_pipeline.go, and `downloadForValidation` of dedup.go: the stages that a candidate passes.
-- `validateOne` is cut at the two places where it locks shared state, so that Schedule can
-- interleave the goroutines: fetch, dedup (under the filter's lock), judge, append (under `mu`).
pub mod Verdicts
pub mod Schedule
use go_imagefy.Prelude.{
  ℕ, ℤ, pos, ltb_ℤ, Bool, true, false, not, ◌&&◌, ◌||◌, Option, some, none, List, [], ◌∷◌, ◌++◌,
  is_empty, length, if◌then◌else◌,
}
use go_imagefy.Text.{Text, codes, text_eq}
use go_imagefy.Platform.{Platform}
use go_imagefy.License.{
  ImageLicense, license_safe, license_unknown, license_blocked, is_license_blocked,
  check_license_with,
}
use go_imagefy.Metadata.Tags.{extract_image_metadata}
use go_imagefy.Candidate.{ImageCandidate}
use go_imagefy.Assessment.{assess_license}
use go_imagefy.Classes.{ClassificationResult, class_photo, class_stock}
use go_imagefy.Http.{Io, pure, ◌>>=◌, ◌>>◌, Context}
use go_imagefy.Config.{Config}
use go_imagefy.Config.Environment.{Environment}
use go_imagefy.Download.{DownloadResult, download}
use go_imagefy.Validate.{validate_image_url}
use go_imagefy.Reverse.{reverse_check}
use go_imagefy.Dedup.{is_duplicate}
use go_imagefy.Classify.{limited, emit_classification, classify_predownloaded}

-- What `downloadForValidation` returns; `image` is nil where the bytes do not decode.
pub record Downloaded (Img : Type 0) : Type 0 where
  pub bytes : List ℕ
  pub mime_type : Text
  pub image : Option Img

-- `appendValidated`, under the lock.
unfoldable pub append_validated : List ImageCandidate → ImageCandidate → ℤ → List ImageCandidate
append_validated validated cand max_results =
    if ltb_ℤ (pos (length validated)) max_results then validated ++ cand ∷ [] else validated

-- The class that ends the pipeline.
abbrev pub is_rejected_class : Text → Bool
is_rejected_class cls = not (text_eq cls class_photo) && not (is_empty cls)

-- The condition of `isBlockedByExtraDomains`, on the configured extra blocked domains.
unfoldable pub names_extra_domain : ⦃p : Platform⦄ → List Text → ImageCandidate → Bool
names_extra_domain extra_blocked cand =
    not (is_empty extra_blocked)
    && is_license_blocked (check_license_with cand.img_url cand.source extra_blocked [])

module _ {W Img Hash F : Type 0} (env : Environment W Img Hash F) ⦃p : Platform⦄ (cfg : Config W F)
    (ctx : Context) where
  -- What is made of a download.
  unfoldable pub decoded : Option DownloadResult → Downloaded Img
  decoded none = record { bytes = []; mime_type = []; image = none }
  decoded (some r) = record {
    bytes = r.bytes;
    mime_type = r.mime_type;
    image = env.decode_image r.bytes;
  }

  unfoldable pub download_for_validation : Text → Io W (Downloaded Img)
  unfolding decoded
  download_for_validation url = do r ← download env cfg ctx url (limited (pos 0)); pure (decoded r)

  -- `isBlockedByExtraDomains`.
  unfoldable pub is_blocked_by_extra_domains : ImageCandidate → Io W Bool
  is_blocked_by_extra_domains cand =
      if names_extra_domain cfg.extra_blocked_domains cand
      then (do
        emit_classification cfg cand.img_url class_stock env.floats.zero_float
            (codes "license_assessment")
        pure true)
      else pure false

  -- Stages 1 to 3 of `validateOne`; `none` means that the candidate was dropped.
  unfoldable pub fetch : ImageCandidate → Io W (Option (Downloaded Img))
  fetch cand = do
    valid ← validate_image_url env cfg ctx cand.img_url
    if not valid then pure none else (do
      blocked ← is_blocked_by_extra_domains cand
      if blocked then pure none else (do d ← download_for_validation cand.img_url; pure (some d)))

  -- Stage 4, under the filter's lock: whether the image is a duplicate, and the stored hashes.
  unfoldable pub dedup : List Hash → Option Img → Bool × List Hash
  dedup hashes none = (false, hashes)
  dedup hashes (some img) = is_duplicate env.hashing hashes img

  -- Stages 5.5 and 6: the reverse search and the vision model, for an unknown licence.
  unfoldable pub ask_vision : ImageCandidate → Downloaded Img → Io W Bool
  ask_vision cand d = do
    reverse ← reverse_check env cfg ctx cand.img_url
    if reverse.is_stock
        then (do
          emit_classification cfg cand.img_url class_stock env.floats.zero_float
              (codes "reverse_stock")
          pure false)
        else (do
          r ← classify_predownloaded env cfg ctx cand.img_url d.bytes d.mime_type
          pure (not (is_rejected_class r.class)))

  -- The licence that `assessAndAccept` computes from the candidate and the metadata.
  unfoldable pub assessed : ImageCandidate → Downloaded Img → ImageLicense
  assessed cand d =
      (assess_license cfg.extra_blocked_domains cfg.extra_safe_domains cand
        (extract_image_metadata env.decode_tags d.bytes)).license

  -- Stages 5 to 6, `assessAndAccept` included, without the appending: whether to append.
  unfoldable pub judge : ImageCandidate → Downloaded Img → Io W Bool
  judge cand d = elim (assessed cand d) [
    | license_blocked ↦ do
      emit_classification cfg cand.img_url class_stock env.floats.zero_float
          (codes "license_assessment")
      pure false
    | license_safe ↦ do
      emit_classification cfg cand.img_url class_photo env.floats.one_float
          (codes "license_assessment")
      pure true
    | license_unknown ↦ ask_vision cand d
  ]

-- The state that the goroutines of one call share.
pub record Shared (Hash : Type 0) : Type 0 where
  pub validated : List ImageCandidate
  pub hashes : List Hash

module _ {W Img Hash F : Type 0} (env : Environment W Img Hash F) ⦃p : Platform⦄ (cfg : Config W F)
    (ctx : Context) (max_results : ℤ) where
  -- The last stage.
  abbrev pub finish : ImageCandidate → Shared Hash → Bool → Shared Hash
  finish cand s false = s
  finish cand s true = record s { validated = append_validated s.validated cand max_results }

  -- What `validateOne` does with the downloaded image.
  unfoldable pub check_downloaded :
      ImageCandidate → Shared Hash → Option (Downloaded Img) → Io W (Shared Hash)
  check_downloaded cand s none = pure s
  check_downloaded cand s (some d) =
      let (duplicate, hashes) = dedup env cfg ctx s.hashes d.image in
      let s' : Shared Hash = record s { hashes = hashes } in
      if duplicate then pure s' else (do ok ← judge env cfg ctx cand d; pure (finish cand s' ok))

  -- `validateOne`, run by itself.
  unfoldable pub validate_one : ImageCandidate → Shared Hash → Io W (Shared Hash)
  validate_one cand s = do d ← fetch env cfg ctx cand; check_downloaded cand s d
