-- ===== src/Content/Origin.antt =====
-- Where the content provider finds addresses on a page.
use go_imagefy.Prelude.{true, false, is_empty, ◌≡◌, some}
use go_imagefy.Text.{Text, codes, has_prefix, trim_space}
use go_imagefy.Platform.{Platform, to_lower, unescape_html}
use go_imagefy.Regexp.{Match, captured, find, find_all, whole}
use go_imagefy.Regexp.Members.{In}
use go_imagefy.Html.{first_group, extract_og_image_url}
use go_imagefy.ImageUrl.{
  normalize_img_url, registrable_domain, slug_tokens_from, is_slug_match, is_content_skip,
}
use go_imagefy.ImageTag.{
  content_src_re, content_img_tag_re, twitter_image_re, json_ld_script_re, extract_attr,
  is_tiny_thumbnail, JsonLd, extract_json_ld_image,
}
use go_imagefy.Content.{Bucket, priority, normal, jsonld, og_fallback}

module _ ⦃p : Platform⦄ where
  abbrev pub cleaned : Text → Text
  cleaned raw = unescape_html (trim_space raw)

  -- The address of a tag, and the same without a size.
  abbrev pub src_of : Text → Text
  src_of img_tag = cleaned (extract_attr content_src_re img_tag)

  abbrev pub full_of : Text → Text
  full_of img_tag = normalize_img_url (src_of img_tag)

  -- The tag has an address of the page's domain, which names nothing to skip and is not tiny.
  pub record IsContentTag (page_url img_tag : Text) : Type 0 where
    pub has_src : is_empty (extract_attr content_src_re img_tag) ≡ false
    pub is_web : has_prefix (src_of img_tag) (codes "http") ≡ true
    pub same_domain : registrable_domain (src_of img_tag) ≡ registrable_domain page_url
    pub domain_known : is_empty (registrable_domain page_url) ≡ false
    pub not_skipped : is_content_skip (to_lower (src_of img_tag)) ≡ false
    pub not_tiny : is_tiny_thumbnail img_tag (src_of img_tag) ≡ false

  -- The list that an address of the page belongs to, and the title that it is given.
  pub data Origin (page_url query page : Text) (json : JsonLd) : Bucket → Text → Text → Type 0 where
    by_slug :
        (m : Match)
        → In m (find_all content_img_tag_re page)
        → IsContentTag page_url (whole m)
        → is_slug_match (full_of (whole m)) (slug_tokens_from page_url query) ≡ true
        → Origin page_url query page json priority (full_of (whole m)) (codes "content:img:slug")
    by_tag :
        (m : Match)
        → In m (find_all content_img_tag_re page)
        → IsContentTag page_url (whole m)
        → is_slug_match (full_of (whole m)) (slug_tokens_from page_url query) ≡ false
        → Origin page_url query page json normal (full_of (whole m)) (codes "content:img")
    by_json_ld :
        (m : Match)
        → In m (find_all json_ld_script_re page)
        → Origin page_url query page json jsonld
            (extract_json_ld_image json (captured 1 m.captures))
            (codes "jsonld:image")
    by_og :
        Origin page_url query page json og_fallback (extract_og_image_url page) (codes "og:image")
    by_twitter :
        (m : Match)
        → find twitter_image_re page ≡ some m
        → Origin page_url query page json og_fallback (first_group m) (codes "twitter:image")
