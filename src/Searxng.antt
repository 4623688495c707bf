-- ===== src/Searxng.antt =====
-- provider.go: the provider that asks a SearXNG instance.
pub mod Filter
use go_imagefy.Prelude.{
  ℕ, zero, suc, ◌+◌, ◌*◌, ◌/◌, ◌%◌, ℤ, pos, ltb, ltb_ℤ, to_ℕ, Bool, true, false, not, Option, some,
  none, List, [], ◌∷◌, ◌++◌, is_empty, if◌then◌else◌,
}
use go_imagefy.Text.{Text, codes, trim_right, join, in_cutset}
use go_imagefy.Platform.{Platform, to_lower}
use go_imagefy.License.{ImageLicense, is_license_blocked, check_license}
use go_imagefy.Candidate.{ImageCandidate, is_logo_or_banner}
use go_imagefy.Http.{
  Io, pure, ◌>>=◌, Context, Client, new_request, send_built, read_limited, get, Response,
}
use go_imagefy.Decimal.{decimal}
use go_imagefy.Web.{Codec}
use go_imagefy.Config.{
  SearchProvider, SearchOpts, SearchError, bad_request, transport_failed, read_failed, bad_json,
  SearchResult, found, failed, client_or,
}

abbrev pub searxng_body_limit : ℕ
searxng_body_limit = 1024 * 1024

pub record SearxngProvider (W : Type 0) : Type 0 where
  pub url : Text
  pub http_client : Option (Client W)
  pub user_agent : Text

-- The JSON shape of a result.
pub record SearxngResult : Type 0 where
  pub img_src : Text
  pub thumbnail : Text
  pub url : Text
  pub title : Text

-- `buildURL`; the page number is written where it is above 1.
unfoldable pub build_url :
    {W : Type 0} → Codec SearxngResult → SearxngProvider W → Text → SearchOpts → Text
build_url codec prov query opts =
    let base =
      trim_right (in_cutset (codes "/")) prov.url
      ++ (codes "/search?q="
          ++ (codec.query_escape query ++ codes "&format=json&categories=images")) in
    let paged =
      if ltb_ℤ (pos 1) opts.page_number
      then base ++ (codes "&pageno=" ++ decimal (to_ℕ opts.page_number))
      else base in
    if not (is_empty opts.engines)
    then paged ++ (codes "&engines=" ++ codec.query_escape (join opts.engines (codes ",")))
    else paged

-- The candidate that is made of a result.
abbrev pub candidate_of : SearxngResult → ImageLicense → ImageCandidate
candidate_of r license = record {
  img_url = r.img_src;
  thumbnail = r.thumbnail;
  source = r.url;
  title = r.title;
  license = license;
  width = pos 0;
  height = pos 0;
  engine = [];
}

module _ ⦃p : Platform⦄ where
  -- `SearXNGProvider.filter`.
  unfoldable pub filter : List SearxngResult → List ImageCandidate
  filter [] = []
  filter (r ∷ rs) =
      let rest = filter rs in
      let license = check_license r.img_src r.url in
      if is_empty r.img_src
      then rest
      else if is_logo_or_banner (to_lower r.img_src)
      then rest
      else if is_license_blocked license
      then rest
      else candidate_of r license ∷ rest

  -- What is made of the answer.
  unfoldable pub read_answer : Codec SearxngResult → Option Response → SearchResult
  unfolding filter
  read_answer codec none = failed transport_failed
  read_answer codec (some resp) = elim (read_limited searxng_body_limit resp) [
    | none ↦ failed read_failed
    | some body ↦ elim (codec.unmarshal body) [
      | none ↦ failed bad_json
      | some results ↦ found (filter results)
    ]
  ]

  module _ {W : Type 0} (codec : Codec SearxngResult) (default_client : Client W) where
    -- `SearXNGProvider.Search` with its `fetch`.
    unfoldable pub search : SearxngProvider W → Context → Text → SearchOpts → Io W SearchResult
    unfolding build_url read_answer
    search prov ctx query opts =
        elim (new_request ctx get (build_url codec prov query opts)
          ((codes "Accept", codes "application/json") ∷ []) []) [
            | none ↦ pure (failed bad_request)
            | some req ↦ do
              reply ← send_built (client_or prov.http_client default_client) (some req)
              pure (read_answer codec reply)
          ]

    -- The same, as a provider.
    abbrev pub provider : SearxngProvider W → SearchProvider W
    provider prov = record {
      name = codes "searxng";
      search = λ ctx query opts. search prov ctx query opts;
    }
