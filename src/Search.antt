-- ===== src/Search.antt =====
-- search.go: the providers, the gathering of their candidates, the stable sort by licence, and the
-- entry points `SearchImagesWithOpts` and `ValidateCandidates`. The sort is `sort.SliceStable`.
pub mod Order
pub mod Results
use go_imagefy.Prelude.{
  ℕ, ℤ, pos, ltb, leb_ℤ, Bool, true, false, not, Option, some, none, List, [], ◌∷◌, ◌++◌, is_empty,
  if◌then◌else◌, ◌≡◌, ◌≢◌,
}
use go_imagefy.Text.{Text}
use go_imagefy.Platform.{Platform}
use go_imagefy.License.{rank}
use go_imagefy.Candidate.{ImageCandidate}
use go_imagefy.Http.{Io, pure, Client, Context, with_timeout, Duration, seconds}
use go_imagefy.Config.{Config, SearchProvider, SearchOpts, SearchResult, found, failed, defaults}
use go_imagefy.Config.Environment.{Environment}
use go_imagefy.Pipeline.Schedule.{Machine, launch, Reach}
use go_imagefy.Pipeline.Schedule.Progress.{IsDone}

abbrev pub search_timeout : Duration
search_timeout = seconds 30

-- An earlier candidate goes in front of the sorted later ones that are not below it.
unfoldable pub insert_sorted : ImageCandidate → List ImageCandidate → List ImageCandidate
insert_sorted c [] = c ∷ []
insert_sorted c (d ∷ ds) =
    let rest = insert_sorted c ds in
    if ltb (rank d.license) (rank c.license) then d ∷ rest else c ∷ d ∷ ds

-- `sort.SliceStable` by licence.
unfoldable pub sort_by_license : List ImageCandidate → List ImageCandidate
unfolding insert_sorted
sort_by_license [] = []
sort_by_license (c ∷ cs) = insert_sorted c (sort_by_license cs)

-- What `gatherCandidates` takes from a provider: its errors are logged and skipped.
abbrev pub candidates_of : SearchResult → List ImageCandidate
candidates_of (found cs) = cs
candidates_of (failed e) = []

module _ {W F : Type 0} where
  -- `resolveProviders`, given the SearXNG provider that it makes of the configuration.
  unfoldable pub resolve_providers :
      (Config W F → SearchProvider W) → Config W F → List (SearchProvider W)
  resolve_providers searxng cfg =
      if not (is_empty cfg.providers)
      then cfg.providers
      else if not (is_empty cfg.searxng_url)
      then searxng cfg ∷ []
      else []

-- `gatherCandidates`: the providers end in any order, and each appends its results as it ends.
module _ {W : Type 0} (ctx : Context) (query : Text) (opts : SearchOpts) where
  pub data Gather : List (SearchProvider W) → W → List ImageCandidate → W → Type 0 where
    nobody : (w : W) → Gather [] w [] w
    somebody :
        (before after : List (SearchProvider W)) (q : SearchProvider W)
        {ps : List (SearchProvider W)} {w w' : W} {rest all : List ImageCandidate}
        → ps ≡ before ++ q ∷ after
        → Gather (before ++ after) (q.search ctx query opts w).1 rest w'
        → all ≡ candidates_of (q.search ctx query opts w).0 ++ rest
        → Gather ps w all w'

-- `SearchOpts{}`.
abbrev pub no_opts : SearchOpts
no_opts = record { page_number = pos 0; engines = []; timeout = pos 0; page_url = [] }

-- The context of a search.
abbrev pub search_context : Context → SearchOpts → Context
search_context ctx opts =
    with_timeout ctx (if leb_ℤ opts.timeout (pos 0) then search_timeout else opts.timeout)

-- The optional callback at the start of a search.
unfoldable pub announce : {W : Type 0} → Option (Io W (Unit {0})) → Io W (Unit {0})
announce none = pure tt
announce (some callback) = callback

module _ {W Img Hash F : Type 0} (env : Environment W Img Hash F) ⦃p : Platform⦄
    (searxng : Config W F → SearchProvider W) (config : Config W F) (max_results : ℤ) where
  -- `validateCandidates` on these candidates can return this list.
  pub data Validates (ctx : Context) (candidates : List ImageCandidate) (w : W)
      (results : List ImageCandidate) : Type 0 where
    finished :
        {m : Machine W Img Hash}
        → Reach env (defaults env.default_client config) ctx max_results (launch candidates w) m
        → IsDone m
        → results ≡ m.validated
        → Validates ctx candidates w results

  -- `SearchImagesWithOpts` can return this list.
  pub data Searches (ctx : Context) (query : Text) (opts : SearchOpts) (w : W)
      (results : List ImageCandidate) : Type 0 where
    no_query : query ≡ [] → results ≡ [] → Searches ctx query opts w results
    no_candidates :
        {w' : W}
        → query ≢ []
        → Gather
            (search_context ctx opts)
            query
            opts
            (resolve_providers searxng (defaults env.default_client config))
            (announce config.on_image_search w).1
            []
            w'
        → results ≡ []
        → Searches ctx query opts w results
    searched :
        {w' : W} {candidates : List ImageCandidate}
        → query ≢ []
        → Gather
            (search_context ctx opts)
            query
            opts
            (resolve_providers searxng (defaults env.default_client config))
            (announce config.on_image_search w).1
            candidates
            w'
        → candidates ≢ []
        → Validates (search_context ctx opts) (sort_by_license candidates) w' results
        → Searches ctx query opts w results

  -- `SearchImages` can return this list.
  abbrev pub SearchesPlainly : Context → Text → W → List ImageCandidate → Type 0
  SearchesPlainly ctx query w results = Searches ctx query no_opts w results

  -- `ValidateCandidates` can return this list.
  pub data ValidatesExternal (ctx : Context) (candidates : List ImageCandidate) (w : W)
      (results : List ImageCandidate) : Type 0 where
    nothing_given : candidates ≡ [] → results ≡ [] → ValidatesExternal ctx candidates w results
    given :
        candidates ≢ []
        → Validates ctx candidates w results
        → ValidatesExternal ctx candidates w results
