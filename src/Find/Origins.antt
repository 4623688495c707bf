-- ===== src/Find/Origins.antt =====
-- Where the images come from that `FindImages` returns.
use go_imagefy.Prelude.{
  ◌≤◌, to_ℕ, List, [], ◌++◌, length, ◌≡◌, ◌≢◌, ◌⊎◌, inl, inr, sym, subst, arith, All, All-append,
  All-map, Any,
}
use go_imagefy.Platform.{Platform}
use go_imagefy.Candidate.{ImageCandidate}
use go_imagefy.Http.{Context}
use go_imagefy.Config.{Config, SearchProvider, defaults}
use go_imagefy.Config.Environment.{Environment}
use go_imagefy.Pipeline.Schedule.Invariant.{IsAccepted}
use go_imagefy.Search.{resolve_providers}
use go_imagefy.Search.Results.{Offered, Gather-Offered, own, Validates-le, Validates-All}
use go_imagefy.Find.{
  FindOpts, effective_max_results, effective_search_opts, page_candidates, Queries, not_asked,
  asked, Finds, nothing, merged,
}

module _ {W F : Type 0} (searxng content : Config W F → SearchProvider W) (cfg : Config W F)
    (ctx : Context) (opts : FindOpts) where
  -- A provider offered the candidate for the query, or the page has it, or the caller gave it.
  abbrev pub HasOrigin : ImageCandidate → Type 0
  HasOrigin c =
      ((opts.query ≢ [])
        × Offered ctx opts.query (effective_search_opts opts) (resolve_providers searxng cfg) c)
      ⊎ (((w : W) × Any (λ x. x ≡ c) (page_candidates content cfg ctx opts w).0)
          ⊎ Any (λ x. x ≡ c) opts.external)

  Queries-HasOrigin :
      {w w' : W} {cs : List ImageCandidate}
      → Queries searxng cfg ctx opts w cs w'
      → All HasOrigin cs
  Queries-HasOrigin (not_asked q) = tt
  Queries-HasOrigin (asked {cs} q g) =
      All-map _ HasOrigin (λ c o. inl (q, o)) cs (Gather-Offered _ _ _ g)

  merged-HasOrigin :
      {w w' : W} {cs : List ImageCandidate}
      → Queries searxng cfg ctx opts w cs w'
      → All HasOrigin (cs ++ ((page_candidates content cfg ctx opts w').0 ++ opts.external))
  merged-HasOrigin {w'} {cs} q = All-append _ cs _ (Queries-HasOrigin q) (
      All-append _ (page_candidates content cfg ctx opts w').0 _
        (All-map _ HasOrigin (λ c o. inr (inl (w', o))) _ (own _))
        (All-map _ HasOrigin (λ c o. inr (inr o)) _ (own _)))

module _ {W Img Hash F : Type 0} (env : Environment W Img Hash F) ⦃p : Platform⦄
    (searxng content : Config W F → SearchProvider W) (config : Config W F) where
  -- However the goroutines interleave, the images that are found are no more than were asked for,
  -- three where no positive number was; each was offered by a provider for the query, stands on the
  -- page or was given by the caller; and of each the address passed the probe, no extra blocked domain
  -- blocks it or its page, and the judgement accepted it on what `downloadForValidation` gave right
  -- after the probe.
  pub Finds-HasOrigin :
      {ctx : Context} {opts : FindOpts} {w : W} {results : List ImageCandidate}
      → Finds env searxng content config ctx opts w results
      → (length results ≤ to_ℕ (effective_max_results opts))
        × All
            (λ c.
              HasOrigin searxng content (defaults env.default_client config) ctx opts c
              × IsAccepted env
                  (defaults env.default_client config)
                  ctx
                  (effective_max_results opts)
                  c)
            results
  Finds-HasOrigin (nothing q n e) = (rw (e) (omega arith), subst (All _) (sym e) tt)
  Finds-HasOrigin {ctx} {opts} (merged q n v) = (
    Validates-le env searxng config _ v,
    Validates-All env searxng config _
        (HasOrigin searxng content (defaults env.default_client config) ctx opts) _
        (merged-HasOrigin searxng content (defaults env.default_client config) ctx opts q) v,
  )
