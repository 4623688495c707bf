-- ===== src/Content/Steps.antt =====
-- What the content provider collects of a page, as a sequence of steps.
use go_imagefy.Prelude.{
  Bool, none, some, true, false, ◌||◌, not, Option, List, [], ◌∷◌, is_empty, if◌then◌else◌, ◌≡◌,
  ◌⊎◌, inl, inr, refl, Bool-cases, arith,
}
use go_imagefy.Text.{Text, codes, text_eq, has_prefix}
use go_imagefy.Text.Search.{text_eq_iff}
use go_imagefy.Platform.{Platform, to_lower}
use go_imagefy.License.{is_license_blocked, check_license}
use go_imagefy.Candidate.{is_logo_or_banner}
use go_imagefy.Regexp.{Match, find, find_all, whole}
use go_imagefy.Regexp.Members.{In, first, later}
use go_imagefy.Html.{first_group}
use go_imagefy.ImageUrl.{
  normalize_img_url, registrable_domain, slug_tokens_from, is_slug_match, is_content_skip,
}
use go_imagefy.ImageTag.{
  content_src_re, content_img_tag_re, twitter_image_re, json_ld_script_re, extract_attr,
  is_tiny_thumbnail, JsonLd,
}
use go_imagefy.Content.{
  Bucket, priority, normal, jsonld, og_fallback, Buckets, no_buckets, put, was_seen, see,
  candidate_at, add_if_new, add_og, add_twitter, add_json_ld, add_tag, add_tags, collect,
}
use go_imagefy.Content.Origin.{
  cleaned, src_of, full_of, IsContentTag, Origin, by_slug, by_tag, by_json_ld, by_og, by_twitter,
}

module _ ⦃p : Platform⦄ (page_url query page : Text) (json : JsonLd) where
  -- The address is that of a logo or banner, or its licence is a blocked one.
  abbrev pub Drops : Text → Type 0
  Drops raw =
      (is_logo_or_banner (to_lower (cleaned raw)) ≡ true)
      ⊎ (is_license_blocked (check_license (cleaned raw) page_url) ≡ true)

  -- A step of the collection.
  pub data Step (b : Buckets) : Buckets → Type 0 where
    nothing : Step b b
    only_seen : (raw : Text) → Drops raw → Step b (see (normalize_img_url (cleaned raw)) b)
    added :
        (raw title : Text) (bucket : Bucket)
        → Origin page_url query page json bucket raw title
        → has_prefix (cleaned raw) (codes "http") ≡ true
        → was_seen (normalize_img_url (cleaned raw)) b ≡ false
        → is_logo_or_banner (to_lower (cleaned raw)) ≡ false
        → is_license_blocked (check_license (cleaned raw) page_url) ≡ false
        → Step b (
            put bucket
              (candidate_at page_url (cleaned raw) title)
              (see (normalize_img_url (cleaned raw)) b))

  -- Steps from empty lists.
  pub data Collected : Buckets → Type 0 where
    start : Collected no_buckets
    next : {b b' : Buckets} → Collected b → Step b b' → Collected b'

  add_if_new-Step :
      (raw title : Text) (bucket : Bucket) (b : Buckets)
      → Origin page_url query page json bucket raw title
      → Step b (add_if_new page_url raw title bucket b)
  unfolding add_if_new
  add_if_new-Step raw title bucket b o =
      let clean = cleaned raw in
      elim (Bool-cases (is_empty clean || not (has_prefix clean (codes "http")))) [
        | inl e ↦ simp (e) nothing
        | inr h ↦ elim (Bool-cases (was_seen (normalize_img_url clean) b)) [
          | inl e ↦ simp (h, e) nothing
          | inr s ↦ elim (Bool-cases (is_logo_or_banner (to_lower clean))) [
            | inl e ↦ simp (h, s, e) (only_seen raw (inl e))
            | inr l ↦ elim (Bool-cases (is_license_blocked (check_license clean page_url))) [
              | inl e ↦ simp (h, s, l, e) (only_seen raw (inr e))
              | inr k ↦ simp (h, s, l, k) (added raw title bucket o (ground arith) s l k)
            ]
          ]
        ]
      ]

  -- A test that leaves the lists as they are, and one that says more where it does not.
  unless : (t : Bool) {b b' : Buckets} → (t ≡ false → Step b b') → Step b (if t then b else b')
  unless true s = nothing
  unless false s = s refl

  either :
      (t : Bool) {b x y : Buckets}
      → (t ≡ true → Step b x)
      → (t ≡ false → Step b y)
      → Step b (if t then x else y)
  either true s r = s refl
  either false s r = r refl

  add_og-Step : (b : Buckets) → Step b (add_og page_url page b)
  unfolding add_og
  add_og-Step b = unless _ (λ e. add_if_new-Step _ _ og_fallback b by_og)

  add_twitter-Step : (b : Buckets) → Step b (add_twitter page_url page b)
  unfolding add_twitter
  add_twitter-Step b = go (find twitter_image_re page) refl
    where
      go :
          (o : Option Match)
          → find twitter_image_re page ≡ o
          → Step b (elim o [
            | none ↦ b
            | some m ↦ add_if_new page_url (first_group m) (codes "twitter:image") og_fallback b
          ])
      go none e = nothing
      go (some m) e = add_if_new-Step _ _ og_fallback b (by_twitter m e)

  add_json_ld-Collected :
      (ms : List Match) (b : Buckets)
      → ((m : Match) → In m ms → In m (find_all json_ld_script_re page))
      → Collected b
      → Collected (add_json_ld page_url json ms b)
  unfolding add_json_ld
  add_json_ld-Collected [] b h c = c
  add_json_ld-Collected (m ∷ ms) b h c =
      add_json_ld-Collected ms _ (λ n i. h n (later i))
        (next c (unless _ (λ e. add_if_new-Step _ _ jsonld b (by_json_ld m (h m first)))))

  pub add_tag-Step :
      (m : Match) (b : Buckets)
      → In m (find_all content_img_tag_re page)
      → Step b (
          add_tag page_url
            (registrable_domain page_url)
            (slug_tokens_from page_url query)
            (whole m)
            b)
  unfolding add_tag
  add_tag-Step m b i =
      let img_tag = whole m in
      let host = registrable_domain page_url in
      let tokens = slug_tokens_from page_url query in
      unless (is_empty (extract_attr content_src_re img_tag)) (λ e1.
        unless (not (has_prefix (src_of img_tag) (codes "http"))) (λ e2.
          unless (not (text_eq (registrable_domain (src_of img_tag)) host) || is_empty host) (λ e3.
            unless (is_content_skip (to_lower (src_of img_tag))) (λ e4.
              unless (is_tiny_thumbnail img_tag (src_of img_tag)) (λ e5.
                let tag : IsContentTag page_url img_tag = record {
                  has_src = e1;
                  is_web = ground arith;
                  same_domain = (text_eq_iff _ host).0 (ground arith);
                  domain_known = ground arith;
                  not_skipped = e4;
                  not_tiny = e5;
                } in
                either (is_slug_match (full_of img_tag) tokens)
                  (λ e6. add_if_new-Step (full_of img_tag) _ priority b (by_slug m i tag e6))
                  (λ e6. add_if_new-Step (full_of img_tag) _ normal b (by_tag m i tag e6)))))))

  add_tags-Collected :
      (ms : List Match) (b : Buckets)
      → ((m : Match) → In m ms → In m (find_all content_img_tag_re page))
      → Collected b
      → Collected
          (add_tags page_url (registrable_domain page_url) (slug_tokens_from page_url query) ms b)
  unfolding add_tags
  add_tags-Collected [] b h c = c
  add_tags-Collected (m ∷ ms) b h c =
      add_tags-Collected ms _ (λ n i. h n (later i)) (next c (add_tag-Step m b (h m first)))

  -- What is collected of a page comes of such steps.
  pub collect-Collected : Collected (collect page_url json query page)
  unfolding collect
  collect-Collected =
      add_tags-Collected (find_all content_img_tag_re page) _ (λ m i. i)
        (add_json_ld-Collected (find_all json_ld_script_re page) _ (λ m i. i)
          (next (next start (add_og-Step no_buckets)) (add_twitter-Step _)))
