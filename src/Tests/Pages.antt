-- ===== src/Tests/Pages.antt =====
-- Pages and what is read off them, at concrete inputs.
use go_imagefy.Prelude.{
  ◌∷◌, ℕ, ◌≤◌, none, List, [], ◌++◌, take, ◌≡◌, ◌⊎◌, refl, sym, subst, some, true, arith,
}
use go_imagefy.Text.{Text, codes, has_prefix, in_cutset, trim_space, text_eq, drop}
use go_imagefy.Text.Search.{Occurs}
use go_imagefy.Platform.{text_of_bytes, to_lower}
use go_imagefy.Regexp.{
  place, find_from, whole, Match, find, runs, captured, start_of, find_all_from, find_all,
}
use go_imagefy.Regexp.Leftmost.{Leftmost, Nowhere}
use go_imagefy.Html.{og_image_re, extract_og_image_url, extract_cc_license}
use go_imagefy.Html.Links.{
  FromMatch, extract_og_image_url-FromMatch, FromQuoted, extract_cc_license-FromQuoted,
}
use go_imagefy.ImageUrl.{normalize_img_url, registrable_domain, is_content_skip}
use go_imagefy.ImageTag.{
  extract_attr, content_src_re, is_tiny_thumbnail, JsonLd, content_img_tag_re, json_ld_script_re,
}
use go_imagefy.Content.{Buckets, collect, images_of, content_max_results}
use go_imagefy.Content.Distinct.{times, times-images_of-le}
use go_imagefy.Regexp.Members.{In, first}
use go_imagefy.Content.Origin.{cleaned, full_of, IsContentTag}
use go_imagefy.Content.Kept.{Accounts, norm_of, collect-Accounts}
use go_imagefy.Content.Ranked.{AreRanked, images_of-AreRanked}
use go_imagefy.Content.Complete.{find_all_tags_enough}
use go_imagefy.Web.{success}
use go_imagefy.Ddg.{token_of, vqd_re}
use go_imagefy.Ddg.Token.{IsToken, token_of-IsToken}
use go_imagefy.Tests.World.{ascii}

abbrev page_url : Text
page_url = codes "https://a.org/cat-show"

-- A page with an og:image, two pictures, of which one is named like the page, and a licence.
abbrev page : Text
page =
    codes "<meta property='og:image' content='https://a.org/og.jpg'>"
    ++ (codes "<img src='https://a.org/dog.jpg'><img src='https://a.org/cat-show.jpg'>"
        ++ codes "<a rel='license' href='https://creativecommons.org/licenses/by/4.0/'>")

-- Decodes nothing.
abbrev pub no_json : JsonLd
no_json = record {
  as_object = λ s. none;
  as_string = λ s. none;
  as_url = λ s. none;
  as_array = λ s. none;
}

extract_og_image_url-FromMatch_example :
    (Nowhere og_image_re none page × (extract_og_image_url page ≡ []))
    ⊎ ((m : Match) × Leftmost og_image_re none page m
        × FromMatch page m (extract_og_image_url page))
extract_og_image_url-FromMatch_example = extract_og_image_url-FromMatch page

extract_cc_license-FromQuoted_example : FromQuoted page (extract_cc_license page)
extract_cc_license-FromQuoted_example = extract_cc_license-FromQuoted page

times-images_of-le_example :
    times (codes "https://a.org/dog.jpg") (images_of page_url no_json (codes "cat") page) ≤ 1
times-images_of-le_example =
    times-images_of-le page_url (codes "cat") page no_json (codes "https://a.org/dog.jpg")

images_of-AreRanked_example :
    (b : Buckets) × AreRanked page_url (codes "cat") page no_json b
    × (images_of page_url no_json (codes "cat") page
        ≡ take content_max_results
            (b.in_priority ++ (b.in_normal ++ (b.in_jsonld ++ b.in_og_fallback))))
images_of-AreRanked_example = images_of-AreRanked page_url (codes "cat") page no_json

find_all_tags_enough_example :
    (find_all_from content_img_tag_re 10 (start_of (codes "a<img b>c"))
      ≡ find_all content_img_tag_re (codes "a<img b>c"))
    × (find_all_from json_ld_script_re 10 (start_of (codes "a<img b>c"))
        ≡ find_all json_ld_script_re (codes "a<img b>c"))
find_all_tags_enough_example = find_all_tags_enough (codes "a<img b>c") 10 (omega arith)

abbrev token_page : List ℕ
token_page = codes "a?vqd=4-2af&x"

token_found : token_of (success token_page) ≡ success (codes "4-2af")
unfolding token_of find runs vqd_re captured
token_found = refl

token_of-IsToken_example :
    IsToken (codes "4-2af") × Occurs (codes "vqd=4-2af") (text_of_bytes token_page)
token_of-IsToken_example = token_of-IsToken token_page (codes "4-2af") token_found

abbrev small_page : Text
small_page = codes "<img src='http://a.org/b.jpg'>"

-- The match of the whole page.
abbrev tag_match : Match
tag_match = record { from = start_of small_page; to = place (some b'>') []; captures = [] }

tag_found : find_all content_img_tag_re small_page ≡ tag_match ∷ []
unfolding find_all find_from runs content_img_tag_re in_cutset
tag_found = refl

small_tag : IsContentTag (codes "http://a.org/x") (whole tag_match)
unfolding extract_attr find runs content_src_re in_cutset captured has_prefix trim_space
    registrable_domain is_content_skip to_lower is_tiny_thumbnail text_eq drop
small_tag = record {
  has_src = refl;
  is_web = refl;
  same_domain = refl;
  domain_known = refl;
  not_skipped = refl;
  not_tiny = refl;
}

full_is_web : has_prefix (cleaned (full_of (whole tag_match))) (codes "http") ≡ true
unfolding has_prefix trim_space normalize_img_url find extract_attr runs content_src_re in_cutset
    captured text_eq drop
full_is_web = refl

collect-Accounts_example :
    Accounts
      (codes "http://a.org/x")
      (codes "b")
      small_page
      no_json
      (collect (codes "http://a.org/x") no_json (codes "b") small_page)
      (norm_of (codes "http://a.org/x") (codes "b") small_page no_json tag_match)
collect-Accounts_example =
    collect-Accounts (codes "http://a.org/x") (codes "b") small_page no_json tag_match
      (subst (In tag_match) (sym tag_found) first) small_tag full_is_web
