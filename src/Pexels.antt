-- ===== src/Pexels.antt =====
-- pexels.go: the provider that asks Pexels, by its official API and by the one of its site.
pub mod Keys
use go_imagefy.Prelude.{
  ℕ, ◌*◌, ℤ, pos, to_ℕ, Bool, true, false, not, Option, some, none, List, [], ◌∷◌, ◌++◌, is_empty,
  if◌then◌else◌,
}
use go_imagefy.Text.{Text, codes}
use go_imagefy.Platform.{Platform, to_lower}
use go_imagefy.License.{license_safe}
use go_imagefy.Candidate.{ImageCandidate, is_logo_or_banner}
use go_imagefy.Http.{Io, pure, ◌>>=◌, Context, Client}
use go_imagefy.Config.{
  SearchProvider, SearchOpts, no_api_key, SearchResult, found, failed, client_or,
}
use go_imagefy.Decimal.{decimal, decimal_ℤ}
use go_imagefy.Web.{
  Codec, Attempt, only_ok, get_body, decode, pick, candidates_from, first_page, agent_header,
  without_slashes,
}

abbrev pub pexels_official_url : Text
pexels_official_url = codes "https://api.pexels.com/v1"

abbrev pub pexels_internal_url : Text
pexels_internal_url = codes "https://www.pexels.com/en-us/api/v3/search/photos"

abbrev pub pexels_body_limit : ℕ
pexels_body_limit = 2 * 1024 * 1024

abbrev pub pexels_per_page : ℕ
pexels_per_page = 40

pub record PexelsProvider (W : Type 0) : Type 0 where
  pub api_key : Text
  pub secret_key : Text
  pub http_client : Option (Client W)
  pub user_agent : Text
  pub official_base : Text
  pub internal_base : Text

unfoldable pub official_url : {W : Type 0} → PexelsProvider W → Text
official_url prov = if is_empty prov.official_base then pexels_official_url else prov.official_base

unfoldable pub internal_url : {W : Type 0} → PexelsProvider W → Text
internal_url prov = if is_empty prov.internal_base then pexels_internal_url else prov.internal_base

-- `pexelsSrc` and `pexelsOfficialPhoto`.
pub record PexelsSrc : Type 0 where
  pub large : Text
  pub small : Text

pub record PexelsOfficialPhoto : Type 0 where
  pub id : ℤ
  pub alt : Text
  pub url : Text
  pub src : PexelsSrc

-- `pexelsInternalImage`, `pexelsInternalUser`, `pexelsInternalAttrs` and `pexelsInternalItem`.
pub record PexelsInternalImage : Type 0 where
  pub small : Text
  pub download_link : Text

pub record PexelsInternalUser : Type 0 where
  pub username : Text

pub record PexelsInternalAttrs : Type 0 where
  pub id : ℤ
  pub slug : Text
  pub title : Text
  pub image : PexelsInternalImage
  pub user : PexelsInternalUser

pub record PexelsInternalItem : Type 0 where
  pub attributes : PexelsInternalAttrs

-- A candidate of the library, whose pictures are free.
abbrev pub free_candidate : Text → Text → Text → Text → ImageCandidate
free_candidate img_url thumbnail source title = record {
  img_url = img_url;
  thumbnail = thumbnail;
  source = source;
  title = title;
  license = license_safe;
  width = pos 0;
  height = pos 0;
  engine = [];
}

-- The end of an address: the query, the page size and the page.
unfoldable pub query_part : (Text → Text) → Text → SearchOpts → Text
query_part query_escape query opts =
    codes "?query="
    ++ (query_escape query
        ++ (codes "&per_page="
            ++ (decimal pexels_per_page ++ (codes "&page=" ++ decimal_ℤ (first_page opts)))))

module _ ⦃p : Platform⦄ where
  -- A round of the loop in `filterOfficialResults`.
  unfoldable pub make_official : PexelsOfficialPhoto → Option ImageCandidate
  make_official photo =
      if is_empty photo.src.large
      then none
      else if is_logo_or_banner (to_lower photo.src.large)
      then none
      else some (free_candidate photo.src.large photo.src.small photo.url photo.alt)

  -- A round of the loop in `filterInternalResults`.
  unfoldable pub make_internal : PexelsInternalItem → Option ImageCandidate
  make_internal item =
      let a = item.attributes in
      if is_empty a.image.download_link
      then none
      else if is_logo_or_banner (to_lower a.image.download_link)
      then none
      else some (
          free_candidate a.image.download_link a.image.small
            (codes "https://www.pexels.com/photo/"
              ++ (a.slug ++ (codes "-" ++ (decimal_ℤ a.id ++ codes "/"))))
            a.title)

  module _ {W : Type 0} (official : Codec PexelsOfficialPhoto) (internal : Codec PexelsInternalItem)
      (default_client : Client W) where
    -- `doGet`.
    unfoldable pub do_get :
        PexelsProvider W → Context → Text → Text → Text → Io W (Attempt (List ℕ))
    do_get prov ctx raw_url key value =
        get_body (client_or prov.http_client default_client) ctx raw_url
          ((key, value) ∷ agent_header prov.user_agent) only_ok pexels_body_limit

    unfoldable pub search_official :
        PexelsProvider W → Context → Text → Text → SearchOpts → Io W SearchResult
    unfolding do_get query_part
    search_official prov ctx base query opts = do
      body ←
          do_get prov ctx
            (without_slashes base
              ++ (codes "/search" ++ query_part official.query_escape query opts))
            (codes "Authorization") prov.api_key
      pure (candidates_from make_official (decode official.unmarshal body))

    unfoldable pub search_internal :
        PexelsProvider W → Context → Text → Text → SearchOpts → Io W SearchResult
    unfolding do_get query_part
    search_internal prov ctx base query opts = do
      body ←
          do_get prov ctx (without_slashes base ++ query_part internal.query_escape query opts)
            (codes "Secret-Key") prov.secret_key
      pure (candidates_from make_internal (decode internal.unmarshal body))

    -- What `Search` does when the official API gave no answer, or was not asked.
    unfoldable pub second_try : PexelsProvider W → Context → Text → SearchOpts → Io W SearchResult
    unfolding search_official search_internal
    second_try prov ctx query opts =
        if not (is_empty prov.secret_key)
        then search_internal prov ctx (internal_url prov) query opts
        else if not (is_empty prov.api_key)
        then search_official prov ctx (official_url prov) query opts
        else pure (failed no_api_key)

    -- What `Search` does with the official API's answer.
    abbrev pub or_second : SearchResult → Io W SearchResult → Io W SearchResult
    or_second (found cs) later = pure (found cs)
    or_second (failed e) later = later

    -- `PexelsProvider.Search`.
    unfoldable pub search : PexelsProvider W → Context → Text → SearchOpts → Io W SearchResult
    unfolding second_try
    search prov ctx query opts =
        if not (is_empty prov.api_key)
        then (do
          first ← search_official prov ctx (official_url prov) query opts
          or_second first (second_try prov ctx query opts))
        else second_try prov ctx query opts

    abbrev pub provider : PexelsProvider W → SearchProvider W
    provider prov = record {
      name = codes "pexels";
      search = λ ctx query opts. search prov ctx query opts;
    }
