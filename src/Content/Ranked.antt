-- ===== src/Content/Ranked.antt =====
-- The order of the images of a page, and where each list takes them from.
use go_imagefy.Prelude.{true, false, ◌++◌, take, All, All-append, ◌≡◌, refl}
use go_imagefy.Text.{Text, codes, has_prefix}
use go_imagefy.Platform.{Platform, to_lower}
use go_imagefy.License.{is_license_blocked, check_license}
use go_imagefy.Candidate.{ImageCandidate, is_logo_or_banner}
use go_imagefy.ImageTag.{JsonLd}
use go_imagefy.Content.{
  Bucket, priority, normal, jsonld, og_fallback, Buckets, put, merge, collect, images_of,
  content_max_results,
}
use go_imagefy.Content.Origin.{Origin, cleaned}
use go_imagefy.Content.Steps.{nothing, only_seen, added, Collected, start, next, collect-Collected}

module _ ⦃p : Platform⦄ (page_url query page : Text) (json : JsonLd) where
  -- A candidate of this list: a cleaned address that the page has for the list, which is a web address
  -- and no logo or banner, with its licence, which is not a blocked one, and the page as its source.
  abbrev pub IsOf : Bucket → ImageCandidate → Type 0
  IsOf bucket c =
      ((raw : Text) × Origin page_url query page json bucket raw c.title
        × (c.img_url ≡ cleaned raw))
      × (c.source ≡ page_url)
      × (has_prefix c.img_url (codes "http") ≡ true)
      × (is_logo_or_banner (to_lower c.img_url) ≡ false)
      × (c.license ≡ check_license c.img_url page_url)
      × (is_license_blocked c.license ≡ false)

  abbrev pub AreRanked : Buckets → Type 0
  AreRanked b =
      All (IsOf priority) b.in_priority
      × All (IsOf normal) b.in_normal
      × All (IsOf jsonld) b.in_jsonld
      × All (IsOf og_fallback) b.in_og_fallback

  put-AreRanked :
      (bucket : Bucket) (c : ImageCandidate) (b : Buckets)
      → IsOf bucket c
      → AreRanked b
      → AreRanked (put bucket c b)
  unfolding put
  put-AreRanked priority c b h (p, n, j, o) = (All-append _ b.in_priority _ p (h, tt), n, j, o)
  put-AreRanked normal c b h (p, n, j, o) = (p, All-append _ b.in_normal _ n (h, tt), j, o)
  put-AreRanked jsonld c b h (p, n, j, o) = (p, n, All-append _ b.in_jsonld _ j (h, tt), o)
  put-AreRanked og_fallback c b h (p, n, j, o) =
      (p, n, j, All-append _ b.in_og_fallback _ o (h, tt))

  Collected-AreRanked : {b : Buckets} → Collected page_url query page json b → AreRanked b
  Collected-AreRanked start = (tt, tt, tt, tt)
  Collected-AreRanked (next c nothing) = Collected-AreRanked c
  Collected-AreRanked (next c (only_seen raw why)) = Collected-AreRanked c
  Collected-AreRanked (next {b} c (added raw title bucket o h s l k)) =
      put-AreRanked bucket _ _ ((raw, o, refl), refl, h, l, refl, k) (Collected-AreRanked c)

  -- The images of a page are the first eight at most of four lists. The first two come from <img>
  -- tags with an address of the page's domain that names nothing to skip and is not tiny: those named
  -- like the page or the query, and then the others; the third comes from JSON-LD scripts, the last is
  -- the og:image and the twitter:image. Each is a web address that is no logo or banner and has a
  -- licence that is not a blocked one.
  pub images_of-AreRanked :
      (b : Buckets) × AreRanked b
      × (images_of page_url json query page
          ≡ take content_max_results
              (b.in_priority ++ (b.in_normal ++ (b.in_jsonld ++ b.in_og_fallback))))
  unfolding images_of merge
  images_of-AreRanked = (
    collect page_url json query page,
    Collected-AreRanked (collect-Collected page_url query page json),
    refl,
  )
