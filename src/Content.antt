-- ===== src/Content.antt =====
-- provider_content.go: `ContentImageProvider`, which takes the images of a page from its tags.
pub mod Origin
pub mod Steps
pub mod Distinct
pub mod Ranked
pub mod Complete
pub mod Kept
use go_imagefy.Prelude.{
  ℕ, ◌*◌, pos, Bool, true, false, not, ◌&&◌, ◌||◌, Option, some, none, List, [], ◌∷◌, ◌++◌, take,
  is_empty, any, if◌then◌else◌,
}
use go_imagefy.Text.{Text, codes, text_eq, has_prefix, trim_space}
use go_imagefy.Platform.{Platform, to_lower, unescape_html, text_of_bytes}
use go_imagefy.License.{is_license_blocked, check_license}
use go_imagefy.Candidate.{ImageCandidate, is_logo_or_banner}
use go_imagefy.Http.{Io, pure, ◌>>=◌, Context, Client, Duration, seconds, with_timeout}
use go_imagefy.Config.{
  SearchProvider, SearchOpts, SearchResult, found, client_or, default_user_agent,
}
use go_imagefy.Web.{Attempt, success, failure, below_400, get_body}
use go_imagefy.Regexp.{Match, captured, find, find_all, whole}
use go_imagefy.Html.{first_group, extract_og_image_url}
use go_imagefy.ImageUrl.{
  normalize_img_url, registrable_domain, slug_tokens_from, is_slug_match, is_content_skip,
}
use go_imagefy.ImageTag.{
  content_src_re, content_img_tag_re, twitter_image_re, json_ld_script_re, extract_attr,
  is_tiny_thumbnail, JsonLd, extract_json_ld_image,
}

abbrev pub content_fetch_timeout : Duration
content_fetch_timeout = seconds 10

abbrev pub content_body_limit : ℕ
content_body_limit = 2 * 1024 * 1024

abbrev pub content_max_results : ℕ
content_max_results = 8

pub record ContentImageProvider (W : Type 0) : Type 0 where
  pub http_client : Option (Client W)

-- The lists that candidates are put in.
pub data Bucket : Type 0 where
  priority normal jsonld og_fallback : Bucket

-- The variables of `Search`: `seen` and the four lists.
pub record Buckets : Type 0 where
  pub seen : List Text
  pub in_priority : List ImageCandidate
  pub in_normal : List ImageCandidate
  pub in_jsonld : List ImageCandidate
  pub in_og_fallback : List ImageCandidate

abbrev pub no_buckets : Buckets
no_buckets = record {
  seen = [];
  in_priority = [];
  in_normal = [];
  in_jsonld = [];
  in_og_fallback = [];
}

-- `*bucket = append(*bucket, c)`.
unfoldable pub put : Bucket → ImageCandidate → Buckets → Buckets
put priority c b = record b { in_priority = b.in_priority ++ c ∷ [] }
put normal c b = record b { in_normal = b.in_normal ++ c ∷ [] }
put jsonld c b = record b { in_jsonld = b.in_jsonld ++ c ∷ [] }
put og_fallback c b = record b { in_og_fallback = b.in_og_fallback ++ c ∷ [] }

-- `seen[norm]`.
abbrev pub was_seen : Text → Buckets → Bool
was_seen norm b = any (text_eq norm) b.seen

abbrev pub see : Text → Buckets → Buckets
see norm b = record b { seen = norm ∷ b.seen }

-- The candidates in the order of the lists.
unfoldable pub merge : Buckets → List ImageCandidate
merge b = b.in_priority ++ (b.in_normal ++ (b.in_jsonld ++ b.in_og_fallback))

module _ ⦃p : Platform⦄ (page_url : Text) where
  abbrev pub candidate_at : Text → Text → ImageCandidate
  candidate_at clean title = record {
    img_url = clean;
    thumbnail = [];
    source = page_url;
    title = title;
    license = check_license clean page_url;
    width = pos 0;
    height = pos 0;
    engine = [];
  }

  -- `addIfNew`.
  unfoldable pub add_if_new : Text → Text → Bucket → Buckets → Buckets
  unfolding normalize_img_url put
  add_if_new img_url title bucket b =
      let clean = unescape_html (trim_space img_url) in
      let norm = normalize_img_url clean in
      if is_empty clean || not (has_prefix clean (codes "http"))
      then b
      else if was_seen norm b
      then b
      else if is_logo_or_banner (to_lower clean)
      then see norm b
      else if is_license_blocked (check_license clean page_url)
      then see norm b
      else put bucket (candidate_at clean title) (see norm b)

  -- The og:image and the twitter:image.
  unfoldable pub add_og : Text → Buckets → Buckets
  unfolding add_if_new
  add_og page b =
      let url = extract_og_image_url page in
      if is_empty url then b else add_if_new url (codes "og:image") og_fallback b

  unfoldable pub add_twitter : Text → Buckets → Buckets
  unfolding add_if_new
  add_twitter page b = elim (find twitter_image_re page) [
    | none ↦ b
    | some m ↦ add_if_new (first_group m) (codes "twitter:image") og_fallback b
  ]

  -- The loop over the JSON-LD scripts.
  unfoldable pub add_json_ld : JsonLd → List Match → Buckets → Buckets
  unfolding add_if_new
  add_json_ld json [] b = b
  add_json_ld json (m ∷ ms) b =
      let url = extract_json_ld_image json (captured 1 m.captures) in
      add_json_ld json ms
        (if is_empty url then b else add_if_new url (codes "jsonld:image") jsonld b)

  -- A round of the loop over the <img> tags.
  unfoldable pub add_tag : Text → List Text → Text → Buckets → Buckets
  unfolding add_if_new normalize_img_url
  add_tag page_host slug_tokens img_tag b =
      let attr = extract_attr content_src_re img_tag in
      let src = unescape_html (trim_space attr) in
      let full = normalize_img_url src in
      if is_empty attr
      then b
      else if not (has_prefix src (codes "http"))
      then b
      else if not (text_eq (registrable_domain src) page_host) || is_empty page_host
      then b
      else if is_content_skip (to_lower src)
      then b
      else if is_tiny_thumbnail img_tag src
      then b
      else if is_slug_match full slug_tokens
      then add_if_new full (codes "content:img:slug") priority b
      else add_if_new full (codes "content:img") normal b

  unfoldable pub add_tags : Text → List Text → List Match → Buckets → Buckets
  unfolding add_tag
  add_tags page_host slug_tokens [] b = b
  add_tags page_host slug_tokens (m ∷ ms) b =
      add_tags page_host slug_tokens ms (add_tag page_host slug_tokens (whole m) b)

  -- What is collected of a page.
  unfoldable pub collect : JsonLd → Text → Text → Buckets
  unfolding add_og add_twitter add_json_ld add_tags
  collect json query page =
      add_tags (registrable_domain page_url) (slug_tokens_from page_url query)
        (find_all content_img_tag_re page)
        (add_json_ld json (find_all json_ld_script_re page)
          (add_twitter page (add_og page no_buckets)))

  unfoldable pub images_of : JsonLd → Text → Text → List ImageCandidate
  unfolding collect merge
  images_of json query page = take content_max_results (merge (collect json query page))

module _ ⦃p : Platform⦄ {W : Type 0} (json : JsonLd) (default_client : Client W) where
  -- What is read of the page; an error is a page that is "".
  unfoldable pub page_of : Attempt (List ℕ) → Text
  page_of (failure e) = []
  page_of (success body) = text_of_bytes body

  -- `fetchPage`.
  unfoldable pub fetch_page : ContentImageProvider W → Context → Text → Io W Text
  unfolding page_of
  fetch_page prov ctx page_url = do
    body ←
        get_body (client_or prov.http_client default_client)
          (with_timeout ctx content_fetch_timeout) page_url
          ((codes "User-Agent", default_user_agent) ∷ []) below_400 content_body_limit
    pure (page_of body)

  -- `ContentImageProvider.Search`.
  unfoldable pub search : ContentImageProvider W → Context → Text → SearchOpts → Io W SearchResult
  unfolding fetch_page images_of
  search prov ctx query opts w =
      let (page, w') = fetch_page prov ctx opts.page_url w in
      if is_empty opts.page_url
      then (found [], w)
      else if is_empty page
      then (found [], w')
      else (found (images_of opts.page_url json query page), w')

  abbrev pub provider : ContentImageProvider W → SearchProvider W
  provider prov = record {
    name = codes "content";
    search = λ ctx query opts. search prov ctx query opts;
  }
