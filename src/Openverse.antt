-- ===== src/Openverse.antt =====
-- openverse.go: the provider that asks the Openverse API.
use go_imagefy.Prelude.{ℕ, ◌*◌, pos, Option, some, none, [], ◌∷◌, ◌++◌, is_empty, if◌then◌else◌}
use go_imagefy.Text.{Text, codes}
use go_imagefy.Platform.{Platform, to_lower}
use go_imagefy.License.{license_safe}
use go_imagefy.Candidate.{ImageCandidate, is_logo_or_banner}
use go_imagefy.Http.{Io, pure, ◌>>=◌, Context, Client}
use go_imagefy.Config.{SearchProvider, SearchOpts, SearchResult, client_or}
use go_imagefy.Decimal.{decimal, decimal_ℤ}
use go_imagefy.Web.{
  Codec, only_ok, get_body, decode, candidates_from, first_page, agent_header, without_slashes,
}

abbrev pub openverse_default_url : Text
openverse_default_url = codes "https://api.openverse.org/v1"

abbrev pub openverse_body_limit : ℕ
openverse_body_limit = 1024 * 1024

abbrev pub openverse_default_limit : ℕ
openverse_default_limit = 20

pub record OpenverseResult : Type 0 where
  pub id : Text
  pub title : Text
  pub url : Text
  pub thumbnail : Text
  pub foreign_landing_url : Text
  pub source : Text
  pub license : Text

pub record OpenverseProvider (W : Type 0) : Type 0 where
  pub base_url : Text
  pub http_client : Option (Client W)
  pub user_agent : Text

-- `buildURL`.
unfoldable pub build_url :
    {W : Type 0} → (Text → Text) → OpenverseProvider W → Text → SearchOpts → Text
build_url query_escape prov query opts =
    let base = if is_empty prov.base_url then openverse_default_url else prov.base_url in
    without_slashes base
    ++ (codes "/images/?q="
        ++ (query_escape query
            ++ (codes "&page="
                ++ (decimal_ℤ (first_page opts)
                    ++ (codes "&page_size=" ++ decimal openverse_default_limit)))))

module _ ⦃p : Platform⦄ where
  -- A round of the loop in `filter`.
  unfoldable pub make : OpenverseResult → Option ImageCandidate
  make r =
      if is_empty r.url
      then none
      else if is_logo_or_banner (to_lower r.url)
      then none
      else some (record {
        img_url = r.url;
        thumbnail = r.thumbnail;
        source = r.foreign_landing_url;
        title = r.title;
        license = license_safe;
        width = pos 0;
        height = pos 0;
        engine = [];
      })

  module _ {W : Type 0} (codec : Codec OpenverseResult) (default_client : Client W) where
    -- `OpenverseProvider.Search`, with `fetch`.
    unfoldable pub search : OpenverseProvider W → Context → Text → SearchOpts → Io W SearchResult
    unfolding build_url
    search prov ctx query opts = do
      body ←
          get_body (client_or prov.http_client default_client) ctx
            (build_url codec.query_escape prov query opts)
            ((codes "Accept", codes "application/json") ∷ agent_header prov.user_agent) only_ok
            openverse_body_limit
      pure (candidates_from make (decode codec.unmarshal body))

    abbrev pub provider : OpenverseProvider W → SearchProvider W
    provider prov = record {
      name = codes "openverse";
      search = λ ctx query opts. search prov ctx query opts;
    }
