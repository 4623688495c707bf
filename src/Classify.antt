-- ===== src/Classify.antt =====
-- classify.go: the classification of an image by the vision model, with its cache.
pub mod Caching
pub mod Prompt
use go_imagefy.Prelude.{
  ℕ, ◌*◌, ℤ, pos, negsuc, Bool, true, false, ◌||◌, Option, some, none, List, [], ◌∷◌, is_empty,
  if◌then◌else◌,
}
use go_imagefy.Text.{Text, codes, text_eq}
use go_imagefy.Platform.{Platform}
use go_imagefy.Http.{Io, pure, ◌>>=◌, ◌>>◌, Context}
use go_imagefy.Config.{Config, Cache, Classifier, ImageInput, ClassificationEvent, defaults}
use go_imagefy.Config.Environment.{Environment}
use go_imagefy.Base64.{encode_data_url}
use go_imagefy.Classes.{ClassificationResult, class_photo, parse_classification_result, result}
use go_imagefy.Download.{DownloadResult, DownloadOpts, download}
use Prompt.{default_vision_prompt}

abbrev pub vision_max_bytes : ℤ
vision_max_bytes = pos (200 * 1024)

-- `DownloadOpts{MaxBytes: n}`.
abbrev pub limited : ℤ → DownloadOpts
limited n = record { max_bytes = n; min_bytes = pos 0; timeout = pos 0; user_agent = [] }

abbrev pub cache_prefix : Text
cache_prefix = codes "vision_cls_v2"

module _ {W F : Type 0} where
  -- `emitClassification`.
  unfoldable pub emit_classification : Config W F → Text → Text → F → Text → Io W (Unit {0})
  emit_classification cfg url class confidence source = elim cfg.on_classification [
    | none ↦ pure tt
    | some callback ↦
        callback (record { url = url; class = class; confidence = confidence; source = source })
  ]

  -- The prompt that is sent.
  abbrev pub effective_prompt : Config W F → Text
  effective_prompt cfg =
      if is_empty cfg.vision_prompt then default_vision_prompt else cfg.vision_prompt

  -- The use of the cache that `ClassifyImageFull` and `classifyPredownloaded` share: `classify` is
  -- made on a miss, and its result is stored.
  unfoldable pub through_cache :
      Option (Cache W F)
      → Context
      → Text
      → Io W (ClassificationResult F)
      → Io W (ClassificationResult F)
  through_cache none ctx image_url classify = classify
  through_cache (some cache) ctx image_url classify = do
    let cache_key = cache.key cache_prefix image_url
    cached ← cache.get ctx cache_key
    elim cached [
      | some hit ↦ pure hit
      | none ↦ do fresh ← classify; cache.set ctx cache_key fresh; pure fresh
    ]

  -- Without a classifier the result is the empty one; else the cache comes first.
  unfoldable pub classify_cached :
      ClassificationResult F
      → Option (Classifier W)
      → Option (Cache W F)
      → Context
      → Text
      → (Classifier W → Io W (ClassificationResult F))
      → Io W (ClassificationResult F)
  classify_cached empty none cache ctx image_url classify = pure empty
  classify_cached empty (some classifier) cache ctx image_url classify =
      through_cache cache ctx image_url (classify classifier)

module _ {W Img Hash F : Type 0} (env : Environment W Img Hash F) ⦃p : Platform⦄ where
  abbrev pub no_class : ClassificationResult F
  no_class = result env.floats [] env.floats.zero_float

  -- What is made of the model's answer; `none` is an error.
  unfoldable pub read_answer : Config W F → Text → Option Text → Io W (ClassificationResult F)
  read_answer cfg image_url none = pure no_class
  read_answer cfg image_url (some resp) = do
    let r = parse_classification_result env.floats resp
    emit_classification cfg image_url r.class r.confidence (codes "llm")
    pure r

  -- `classifyFromData`, for a classifier that is configured.
  unfoldable pub classify_from_data :
      Config W F → Classifier W → Context → Text → List ℕ → Text → Io W (ClassificationResult F)
  classify_from_data cfg classifier ctx image_url [] mime_type = pure no_class
  classify_from_data cfg classifier ctx image_url (b ∷ bs) mime_type = do
    let input : ImageInput = record { url = encode_data_url (b ∷ bs) mime_type; mime_type = [] }
    answer ← classifier.classify ctx (effective_prompt cfg) (input ∷ [])
    read_answer cfg image_url answer

  -- What `doClassifyFull` does with the download.
  unfoldable pub classify_download :
      Config W F
      → Classifier W
      → Context
      → Text
      → Option DownloadResult
      → Io W (ClassificationResult F)
  classify_download cfg classifier ctx image_url none = pure no_class
  classify_download cfg classifier ctx image_url (some r) =
      classify_from_data cfg classifier ctx image_url r.bytes r.mime_type

  -- `doClassifyFull`.
  unfoldable pub do_classify_full :
      Config W F → Classifier W → Context → Text → Io W (ClassificationResult F)
  do_classify_full cfg classifier ctx image_url = do
    r ← download env cfg ctx image_url (limited vision_max_bytes)
    classify_download cfg classifier ctx image_url r

  -- `ClassifyImageFull`.
  unfoldable pub classify_image_full : Config W F → Context → Text → Io W (ClassificationResult F)
  classify_image_full config ctx image_url =
      let cfg = defaults env.default_client config in
      classify_cached no_class cfg.classifier cfg.cache ctx image_url
        (λ classifier. do_classify_full cfg classifier ctx image_url)

  -- `classifyPredownloaded`.
  unfoldable pub classify_predownloaded :
      Config W F → Context → Text → List ℕ → Text → Io W (ClassificationResult F)
  classify_predownloaded config ctx image_url bytes mime_type =
      let cfg = defaults env.default_client config in
      classify_cached no_class cfg.classifier cfg.cache ctx image_url
        (λ classifier. classify_from_data cfg classifier ctx image_url bytes mime_type)

  -- `ClassifyImage`.
  unfoldable pub classify_image : Config W F → Context → Text → Io W Text
  classify_image cfg ctx image_url = do r ← classify_image_full cfg ctx image_url; pure r.class

  -- `IsRealPhoto`.
  unfoldable pub is_real_photo : Config W F → Context → Text → Io W Bool
  is_real_photo cfg ctx image_url = do
    cls ← classify_image cfg ctx image_url
    pure (text_eq cls class_photo || is_empty cls)
