-- ===== src/Classify/Caching.antt =====
-- Repeated classifications, and the cache.
use go_imagefy.Prelude.{
  ℕ, true, Option, some, none, List, [], ◌≡◌, ◌↔◌, ◌⊎◌, inl, inr, refl, ap, subst, arith,
  Option-cases,
}
use go_imagefy.Text.{Text}
use go_imagefy.Text.Search.{text_eq_iff}
use go_imagefy.Platform.{Platform}
use go_imagefy.Http.{Io, Context}
use go_imagefy.Config.{Config, Cache, Classifier, defaults}
use go_imagefy.Config.Environment.{Environment}
use go_imagefy.Classes.{ClassificationResult, class_photo}
use go_imagefy.Classify.{
  cache_prefix, through_cache, no_class, classify_image_full, classify_cached,
  classify_predownloaded, classify_image, is_real_photo,
}

-- What the program relies on in a cache: what was stored is found, and a hit can be had again.
pub record Remembers {W F : Type 0} (cache : Cache W F) : Type 0 where
  pub get-set :
      (ctx : Context) (key : Text) (r : ClassificationResult F) (w : W)
      → (cache.get ctx key (cache.set ctx key r w).1).0 ≡ some r
  pub get-get :
      (ctx : Context) (key : Text) (r : ClassificationResult F) (w : W)
      → (cache.get ctx key w).0 ≡ some r
      → (cache.get ctx key (cache.get ctx key w).1).0 ≡ some r

module _ {W F : Type 0} (cache : Cache W F) (ctx : Context) (url : Text)
    (m : Io W (ClassificationResult F)) where
  abbrev lookup : W → Option (ClassificationResult F) × W
  lookup = cache.get ctx (cache.key cache_prefix url)

  through_cache_hit :
      (w : W) (r : ClassificationResult F)
      → (lookup w).0 ≡ some r
      → through_cache (some cache) ctx url m w ≡ (r, (lookup w).1)
  unfolding through_cache
  through_cache_hit w r e = rw (e, through_cache)

  through_cache_miss :
      (w : W)
      → (lookup w).0 ≡ none
      → through_cache (some cache) ctx url m w ≡ (
        (m (lookup w).1).0,
        (cache.set ctx (cache.key cache_prefix url) (m (lookup w).1).0 (m (lookup w).1).1).1,
      )
  unfolding through_cache
  through_cache_miss w e = rw (e, through_cache)

-- A second use of the cache gives the first one's result, whatever it was to compute itself.
through_cache_again :
    {W F : Type 0} (cache : Cache W F) (ctx : Context) (url : Text)
    (m m' : Io W (ClassificationResult F)) (w : W)
    → Remembers cache
    → (through_cache (some cache) ctx url m' (through_cache (some cache) ctx url m w).1).0
      ≡ (through_cache (some cache) ctx url m w).0
through_cache_again cache ctx url m m' w law =
    elim (Option-cases (cache.get ctx (cache.key cache_prefix url) w).0) [
      | inl miss ↦
          rw (through_cache_miss cache ctx url m w miss)
            (ap (λ r. r.0) (through_cache_hit cache ctx url m' _ _ (law.get-set ctx _ _ _)))
      | inr (r, hit) ↦
          rw (through_cache_hit cache ctx url m w r hit)
            (ap (λ r. r.0) (through_cache_hit cache ctx url m' _ _ (law.get-get ctx _ _ _ hit)))
    ]

classify_cached_again :
    {W F : Type 0} (empty : ClassificationResult F) (o : Option (Classifier W))
    (k : Option (Cache W F)) (cache : Cache W F) (ctx : Context) (url : Text)
    (m m' : Classifier W → Io W (ClassificationResult F)) (w : W)
    → k ≡ some cache
    → Remembers cache
    → (classify_cached empty o k ctx url m' (classify_cached empty o k ctx url m w).1).0
      ≡ (classify_cached empty o k ctx url m w).0
unfolding classify_cached
classify_cached_again empty none k cache ctx url m m' w e law = refl
classify_cached_again empty (some c) none cache ctx url m m' w e law = cc
classify_cached_again empty (some c) (some k) cache ctx url m m' w e law =
    through_cache_again k ctx url (m c) (m' c) w
      (subst Remembers (let same : cache ≡ k = cc e in same) law)

module _ {W Img Hash F : Type 0} (env : Environment W Img Hash F) ⦃p : Platform⦄ (cfg : Config W F)
    (ctx : Context) (url : Text) (cache : Cache W F) (w : W) (configured : cfg.cache ≡ some cache)
    (law : Remembers cache) where
  -- With a cache that remembers, an image is classified once: the second call gives the first
  -- result, also where that was the empty one of an error.
  pub classify_image_full_again :
      (classify_image_full env cfg ctx url (classify_image_full env cfg ctx url w).1).0
      ≡ (classify_image_full env cfg ctx url w).0
  unfolding classify_image_full defaults
  classify_image_full_again =
      classify_cached_again (no_class env) cfg.classifier cfg.cache cache ctx url _ _ w configured
        law

  -- The pipeline's classification of downloaded bytes and the public one share their entries: once
  -- an address was classified in the pipeline, the public call gives that result.
  pub classify_image_full_after_pipeline :
      (bytes : List ℕ) (mime : Text)
      → (classify_image_full env cfg ctx url
          (classify_predownloaded env cfg ctx url bytes mime w).1).0
        ≡ (classify_predownloaded env cfg ctx url bytes mime w).0
  unfolding classify_image_full classify_predownloaded defaults
  classify_image_full_after_pipeline bytes mime =
      classify_cached_again (no_class env) cfg.classifier cfg.cache cache ctx url _ _ w configured
        law

module _ {W Img Hash F : Type 0} (env : Environment W Img Hash F) ⦃p : Platform⦄ (cfg : Config W F)
    (ctx : Context) (url : Text) (w : W) where
  -- An image counts as a real photo exactly when its class is the photo class or the empty one.
  pub is_real_photo_iff : ((is_real_photo env cfg ctx url w).0 ≡ true) ↔ (
      ((classify_image_full env cfg ctx url w).0.class ≡ class_photo)
      ⊎ ((classify_image_full env cfg ctx url w).0.class ≡ []))
  unfolding is_real_photo classify_image
  is_real_photo_iff =
      let cls = (classify_image_full env cfg ctx url w).0.class in
      ground (arith, text_eq_iff cls class_photo)
