-- ===== src/Find.antt =====
-- find.go: `FindImages`, which merges the candidates of providers, of a page and of the caller. The
-- provider of a page's images is a parameter here.
pub mod Origins
use go_imagefy.Prelude.{
  ℕ, ℤ, pos, leb_ℤ, Bool, true, false, not, ◌&&◌, List, [], ◌∷◌, ◌++◌, any, is_empty, if◌then◌else◌,
  ◌≡◌, ◌≢◌,
}
use go_imagefy.Text.{Text, codes, text_eq}
use go_imagefy.Platform.{Platform}
use go_imagefy.Candidate.{ImageCandidate}
use go_imagefy.Http.{Io, pure, ◌>>=◌, Context}
use go_imagefy.Config.{Config, SearchProvider, SearchOpts, defaults}
use go_imagefy.Config.Environment.{Environment}
use go_imagefy.Search.{candidates_of, resolve_providers, Gather, sort_by_license, Validates}

pub record FindOpts : Type 0 where
  pub query : Text
  pub page_url : Text
  pub external : List ImageCandidate
  pub max_results : ℤ
  pub search_opts : SearchOpts

abbrev pub find_default_max_results : ℤ
find_default_max_results = pos 3

-- The number of results that is used.
abbrev pub effective_max_results : FindOpts → ℤ
effective_max_results opts =
    if leb_ℤ opts.max_results (pos 0) then find_default_max_results else opts.max_results

-- The options for the providers: the page is filled in where the caller left it out.
abbrev pub effective_search_opts : FindOpts → SearchOpts
effective_search_opts opts =
    if is_empty opts.search_opts.page_url
    then record opts.search_opts { page_url = opts.page_url }
    else opts.search_opts

-- `SearchOpts{PageURL: …}`.
abbrev pub page_opts : Text → SearchOpts
page_opts page_url = record {
  page_number = pos 0;
  engines = [];
  timeout = pos 0;
  page_url = page_url;
}

module _ {W F : Type 0} where
  -- `hasContentProvider` and `hasOGProvider`.
  unfoldable pub has_content_provider : Config W F → Bool
  unfolding any
  has_content_provider cfg = any (λ q. text_eq q.name (codes "content")) cfg.providers

  unfoldable pub has_og_provider : Config W F → Bool
  unfolding any
  has_og_provider cfg = any (λ q. text_eq q.name (codes "og")) cfg.providers

  -- The images of the page, by the content provider that is made of the configuration.
  unfoldable pub page_candidates :
      (Config W F → SearchProvider W) → Config W F → Context → FindOpts → Io W (List ImageCandidate)
  page_candidates content cfg ctx opts =
      if not (is_empty opts.page_url)
        && (not (has_content_provider cfg) && not (has_og_provider cfg))
      then (do
        answer ← (content cfg).search ctx opts.query (page_opts opts.page_url)
        pure (candidates_of answer))
      else pure []

module _ {W F : Type 0} (searxng : Config W F → SearchProvider W) (cfg : Config W F) (ctx : Context)
    (opts : FindOpts) where
  -- What the providers add, where there is a query.
  pub data Queries (w : W) : List ImageCandidate → W → Type 0 where
    not_asked : opts.query ≡ [] → Queries w [] w
    asked :
        {cs : List ImageCandidate} {w' : W}
        → opts.query ≢ []
        → Gather ctx opts.query (effective_search_opts opts) (resolve_providers searxng cfg) w cs w'
        → Queries w cs w'

module _ {W Img Hash F : Type 0} (env : Environment W Img Hash F) ⦃p : Platform⦄
    (searxng content : Config W F → SearchProvider W) (config : Config W F) where
  -- `FindImages` can return this list.
  pub data Finds (ctx : Context) (opts : FindOpts) (w : W) (results : List ImageCandidate)
      : Type 0 where
    nothing :
        {cs : List ImageCandidate} {w' : W}
        → Queries searxng (defaults env.default_client config) ctx opts w cs w'
        → cs
            ++ ((page_candidates content (defaults env.default_client config) ctx opts w').0
                ++ opts.external)
          ≡ []
        → results ≡ []
        → Finds ctx opts w results
    merged :
        {cs : List ImageCandidate} {w' : W}
        → Queries searxng (defaults env.default_client config) ctx opts w cs w'
        → cs
            ++ ((page_candidates content (defaults env.default_client config) ctx opts w').0
                ++ opts.external)
          ≢ []
        → Validates env searxng config
            (effective_max_results opts)
            ctx
            (sort_by_license (
              cs
              ++ ((page_candidates content (defaults env.default_client config) ctx opts w').0
                  ++ opts.external)))
            (page_candidates content (defaults env.default_client config) ctx opts w').1
            results
        → Finds ctx opts w results
