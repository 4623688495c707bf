-- ===== src/Contract/Builtin.antt =====
-- Every provider of the repository keeps the contract, and so do searches over them.
use go_imagefy.Prelude.{
  Bool, true, false, List, [], ◌∷◌, is_empty, not, ◌&&◌, if◌then◌else◌, ◌≡◌, ◌⊎◌, inl, inr, refl,
  All, All-map, Any,
}
use go_imagefy.Platform.{Platform}
use go_imagefy.Candidate.{ImageCandidate}
use go_imagefy.Http.{pure, Context, Client}
use go_imagefy.Config.{Config, SearchProvider, defaults}
use go_imagefy.Config.Environment.{Environment}
use go_imagefy.Web.{Codec}
use go_imagefy.Search.{candidates_of}
use go_imagefy.Find.{
  FindOpts, page_candidates, effective_search_opts, page_opts, has_content_provider,
  has_og_provider, Finds,
}
use go_imagefy.Find.Origins.{HasOrigin, Finds-HasOrigin}
use go_imagefy.Searxng
use go_imagefy.Searxng.{SearxngResult, SearxngProvider}
use go_imagefy.Openverse
use go_imagefy.Openverse.{OpenverseResult, OpenverseProvider}
use go_imagefy.Pexels
use go_imagefy.Pexels.{PexelsOfficialPhoto, PexelsInternalItem, PexelsProvider}
use go_imagefy.Ddg
use go_imagefy.Ddg.{DdgImageResult, DdgImageProvider}
use go_imagefy.Native
use go_imagefy.Native.{NativeImageProvider}
use go_imagefy.Og
use go_imagefy.Og.{OgImageProvider}
use go_imagefy.ImageTag.{JsonLd}
use go_imagefy.Content
use go_imagefy.Content.{ContentImageProvider}
use go_imagefy.Fallback
use go_imagefy.Fallback.{FallbackProvider}
use go_imagefy.Builtin.{searxng_of, content_of}
use go_imagefy.Contract.{IsAllowed, IsLawful}
use go_imagefy.Contract.Library.{pexels-IsLawful}
use go_imagefy.Contract.Providers.{
  searxng-IsLawful, openverse-IsLawful, ddg-IsLawful, native-IsLawful, og-IsLawful,
  content-IsLawful,
}
use go_imagefy.Contract.Searches.{
  fallback-IsLawful, Offered-IsAllowed, Any-IsAllowed, resolve_providers-IsLawful,
}

module _ ⦃p : Platform⦄ {W : Type 0} (default_client : Client W) where
  -- A provider of the repository; a fallback counts where all that it tries do.
  pub data IsBuiltin : SearchProvider W → Type 0 where
    searxng :
        (codec : Codec SearxngResult) (prov : SearxngProvider W)
        → IsBuiltin (Searxng.provider codec default_client prov)
    openverse :
        (codec : Codec OpenverseResult) (prov : OpenverseProvider W)
        → IsBuiltin (Openverse.provider codec default_client prov)
    pexels :
        (official : Codec PexelsOfficialPhoto) (internal : Codec PexelsInternalItem)
        (prov : PexelsProvider W)
        → IsBuiltin (Pexels.provider official internal default_client prov)
    ddg :
        (codec : Codec DdgImageResult) (prov : DdgImageProvider W)
        → IsBuiltin (Ddg.provider codec default_client prov)
    native : (prov : NativeImageProvider W) → IsBuiltin (Native.provider prov)
    og : (prov : OgImageProvider W) → IsBuiltin (Og.provider default_client prov)
    content :
        (json : JsonLd) (prov : ContentImageProvider W)
        → IsBuiltin (Content.provider json default_client prov)
    fallback :
        (f : FallbackProvider W)
        → ((q : SearchProvider W) → Any (λ x. x ≡ q) f.providers → IsBuiltin q)
        → IsBuiltin (Fallback.provider f)

  of_each :
      (P : SearchProvider W → Type 0) (qs : List (SearchProvider W))
      → ((q : SearchProvider W) → Any (λ x. x ≡ q) qs → P q)
      → All P qs
  of_each P [] h = tt
  of_each P (q ∷ qs) h = (h q (inl refl), of_each P qs (λ r a. h r (inr a)))

  -- Whatever it is asked for and whatever the servers answer, no provider of the repository returns a
  -- logo, a banner or an image with a blocked licence.
  pub IsBuiltin-IsLawful : {q : SearchProvider W} → IsBuiltin q → IsLawful q
  IsBuiltin-IsLawful (searxng codec prov) = searxng-IsLawful default_client codec prov
  IsBuiltin-IsLawful (openverse codec prov) = openverse-IsLawful default_client codec prov
  IsBuiltin-IsLawful (pexels official internal prov) =
      pexels-IsLawful default_client official internal prov
  IsBuiltin-IsLawful (ddg codec prov) = ddg-IsLawful default_client codec prov
  IsBuiltin-IsLawful (native prov) = native-IsLawful default_client prov
  IsBuiltin-IsLawful (og prov) = og-IsLawful default_client prov
  IsBuiltin-IsLawful (content json prov) = content-IsLawful default_client json prov
  IsBuiltin-IsLawful (fallback f h) =
      fallback-IsLawful f (of_each IsLawful f.providers (λ q a. IsBuiltin-IsLawful (h q a)))

module _ {W Img Hash F : Type 0} (env : Environment W Img Hash F) ⦃p : Platform⦄ where
  -- The candidates of a page are those of a provider that keeps the contract.
  page_candidates-All :
      (page_provider : Config W F → SearchProvider W) (cfg : Config W F) (ctx : Context)
      (opts : FindOpts) (w : W)
      → IsLawful (page_provider cfg)
      → All IsAllowed (page_candidates page_provider cfg ctx opts w).0
  unfolding page_candidates
  page_candidates-All page_provider cfg ctx opts w h = choose (
      not (is_empty opts.page_url) && (not (has_content_provider cfg) && not (has_og_provider cfg)))
    where
      choose :
          (t : Bool)
          → All IsAllowed
              ((if t
                  then (λ w. (
                    candidates_of
                        ((page_provider cfg).search ctx opts.query (page_opts opts.page_url) w).0,
                    ((page_provider cfg).search ctx opts.query (page_opts opts.page_url) w).1,
                  ))
                  else pure [])
                w).0
      choose true = h ctx opts.query (page_opts opts.page_url) w
      choose false = tt

  -- An image with this origin is allowed, or was given by the caller.
  HasOrigin-IsAllowed :
      (asked page_provider : Config W F → SearchProvider W) (cfg : Config W F) (ctx : Context)
      (opts : FindOpts) (c : ImageCandidate)
      → All IsLawful cfg.providers
      → IsLawful (asked cfg)
      → IsLawful (page_provider cfg)
      → HasOrigin asked page_provider cfg ctx opts c
      → IsAllowed c ⊎ Any (λ x. x ≡ c) opts.external
  HasOrigin-IsAllowed asked page_provider cfg ctx opts c hs a g (inl o) = inl (
      Offered-IsAllowed ctx opts.query (effective_search_opts opts) _ c
        (resolve_providers-IsLawful asked cfg hs a) o.1)
  HasOrigin-IsAllowed asked page_provider cfg ctx opts c hs a g (inr (inl (w, h))) =
      inl (Any-IsAllowed _ c (page_candidates-All page_provider cfg ctx opts w g) h)
  HasOrigin-IsAllowed asked page_provider cfg ctx opts c hs a g (inr (inr h)) = inr h

  -- Where the configured providers are of the repository, no image that `FindImages` returns is a logo
  -- or banner or has a blocked licence, those aside that the caller gave.
  pub Finds-IsAllowed :
      (codec : Codec SearxngResult) (json : JsonLd) (config : Config W F) {ctx : Context}
      {opts : FindOpts} {w : W} {results : List ImageCandidate}
      → All (IsBuiltin env.default_client) config.providers
      → Finds env
          (searxng_of env.default_client codec)
          (content_of env.default_client json)
          config
          ctx
          opts
          w
          results
      → All (λ c. IsAllowed c ⊎ Any (λ x. x ≡ c) opts.external) results
  unfolding defaults
  Finds-IsAllowed codec json config {ctx} {opts} {results} h f =
      All-map _ _
        (λ c o.
          HasOrigin-IsAllowed (searxng_of env.default_client codec)
            (content_of env.default_client json) (defaults env.default_client config) ctx opts c
            (All-map _ IsLawful (λ q b. IsBuiltin-IsLawful env.default_client b) config.providers h)
            (searxng-IsLawful env.default_client codec _)
            (content-IsLawful env.default_client json _) o.0)
        results
        (Finds-HasOrigin env (searxng_of env.default_client codec)
          (content_of env.default_client json) config f).1
