-- ===== src/Og.antt =====
-- provider_og.go: the provider that takes the og:image of a page.
use go_imagefy.Prelude.{ℕ, ◌*◌, pos, Option, List, [], ◌∷◌, is_empty, if◌then◌else◌}
use go_imagefy.Text.{Text, codes}
use go_imagefy.Platform.{Platform, to_lower, text_of_bytes}
use go_imagefy.License.{is_license_blocked, check_license}
use go_imagefy.Candidate.{ImageCandidate, is_logo_or_banner}
use go_imagefy.Http.{Io, pure, ◌>>=◌, Context, Client, Duration, seconds, with_timeout}
use go_imagefy.Config.{
  SearchProvider, SearchOpts, SearchResult, found, client_or, default_user_agent,
}
use go_imagefy.Html.{extract_og_image_url}
use go_imagefy.Web.{Attempt, success, failure, below_400, get_body}

abbrev pub og_fetch_timeout : Duration
og_fetch_timeout = seconds 10

abbrev pub og_body_limit : ℕ
og_body_limit = 2 * 1024 * 1024

pub record OgImageProvider (W : Type 0) : Type 0 where
  pub http_client : Option (Client W)

module _ ⦃p : Platform⦄ where
  -- What is made of the page: its og:image, "" for none.
  unfoldable pub image_of : Attempt (List ℕ) → Text
  image_of (failure e) = []
  image_of (success body) = extract_og_image_url (text_of_bytes body)

  -- The candidates of an image of a page.
  unfoldable pub candidates_of : Text → Text → List ImageCandidate
  candidates_of page_url img_url =
      let license = check_license img_url page_url in
      if is_empty img_url
      then []
      else if is_logo_or_banner (to_lower img_url)
      then []
      else if is_license_blocked license
      then []
      else record {
        img_url = img_url;
        thumbnail = [];
        source = page_url;
        title = codes "og:image";
        license = license;
        width = pos 0;
        height = pos 0;
        engine = [];
      }
        ∷ []

  module _ {W : Type 0} (default_client : Client W) where
    -- `fetchOG`.
    unfoldable pub fetch_og : OgImageProvider W → Context → Text → Io W Text
    unfolding image_of
    fetch_og prov ctx page_url = do
      body ←
          get_body (client_or prov.http_client default_client) (with_timeout ctx og_fetch_timeout)
            page_url ((codes "User-Agent", default_user_agent) ∷ []) below_400 og_body_limit
      pure (image_of body)

    -- `OGImageProvider.Search`.
    unfoldable pub search : OgImageProvider W → Context → Text → SearchOpts → Io W SearchResult
    unfolding fetch_og candidates_of
    search prov ctx query opts w =
        let (img_url, w') = fetch_og prov ctx opts.page_url w in
        if is_empty opts.page_url
        then (found [], w)
        else (found (candidates_of opts.page_url img_url), w')

    abbrev pub provider : OgImageProvider W → SearchProvider W
    provider prov = record {
      name = codes "og";
      search = λ ctx query opts. search prov ctx query opts;
    }
