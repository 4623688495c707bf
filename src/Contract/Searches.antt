-- ===== src/Contract/Searches.antt =====
-- Searches and fallbacks over providers that keep the contract.
use go_imagefy.Prelude.{
  ℤ, Bool, true, false, List, [], ◌∷◌, Option, some, none, ◌≡◌, inl, inr, subst, All, All-map, Any,
  is_empty, not, if◌then◌else◌,
}
use go_imagefy.Text.{Text}
use go_imagefy.Platform.{Platform}
use go_imagefy.Candidate.{ImageCandidate}
use go_imagefy.Http.{Context}
use go_imagefy.Config.{
  Config, SearchProvider, SearchOpts, SearchError, SearchResult, found, failed, defaults,
}
use go_imagefy.Config.Environment.{Environment}
use go_imagefy.Search.{resolve_providers, Searches}
use go_imagefy.Search.Results.{Offered, Searches-IsOffered}
use go_imagefy.Fallback
use go_imagefy.Fallback.{FallbackProvider, try_providers}
use go_imagefy.Contract.{IsAllowed, Allows, IsLawful}

module _ ⦃p : Platform⦄ where
  try_providers-Allows :
      {W : Type 0} (ctx : Context) (query : Text) (opts : SearchOpts) (qs : List (SearchProvider W))
      (last : Option SearchError) (w : W)
      → All IsLawful qs
      → Allows (try_providers ctx query opts qs last w).0
  unfolding try_providers
  try_providers-Allows {W} ctx query opts [] last w h = tt
  try_providers-Allows {W} ctx query opts (q ∷ qs) last w (h, hs) =
      answered (q.search ctx query opts w).0 (q.search ctx query opts w).1 (h ctx query opts w)
        (λ last w. try_providers-Allows ctx query opts qs last w hs)
    where
      answered :
          (r : SearchResult) (w' : W)
          → Allows r
          → ((last : Option SearchError) (w : W)
              → Allows (try_providers ctx query opts qs last w).0)
          → Allows
              (elim r as (λ x. SearchResult × W) [
                | failed e ↦ try_providers ctx query opts qs (some e) w'
                | found [] ↦ try_providers ctx query opts qs last w'
                | found (c ∷ cs) ↦ (found (c ∷ cs), w')
              ]).0
      answered (failed e) w' a later = later (some e) w'
      answered (found []) w' a later = later last w'
      answered (found (c ∷ cs)) w' a later = a

  -- A fallback over providers that keep the contract keeps it.
  pub fallback-IsLawful :
      {W : Type 0} (f : FallbackProvider W)
      → All IsLawful f.providers
      → IsLawful (Fallback.provider f)
  unfolding Fallback.search
  fallback-IsLawful f h ctx query opts w = try_providers-Allows ctx query opts f.providers none w h

  -- What a list of such providers offers is allowed.
  pub Any-IsAllowed :
      (cs : List ImageCandidate) (c : ImageCandidate)
      → All IsAllowed cs
      → Any (λ x. x ≡ c) cs
      → IsAllowed c
  Any-IsAllowed [] c h a = absurd a
  Any-IsAllowed (x ∷ cs) c h (inl e) = subst IsAllowed e h.0
  Any-IsAllowed (x ∷ cs) c h (inr a) = Any-IsAllowed cs c h.1 a

  pub Offered-IsAllowed :
      {W : Type 0} (ctx : Context) (query : Text) (opts : SearchOpts) (qs : List (SearchProvider W))
      (c : ImageCandidate)
      → All IsLawful qs
      → Offered ctx query opts qs c
      → IsAllowed c
  Offered-IsAllowed ctx query opts [] c h (w, a) = absurd a
  Offered-IsAllowed ctx query opts (q ∷ qs) c h (w, inl a) =
      Any-IsAllowed _ c (h.0 ctx query opts w) a
  Offered-IsAllowed ctx query opts (q ∷ qs) c h (w, inr a) =
      Offered-IsAllowed ctx query opts qs c h.1 (w, a)

  -- The providers of a configuration keep the contract where the configured ones do, and so does the
  -- one for SearXNG that is made of it.
  pub resolve_providers-IsLawful :
      {W F : Type 0} (searxng : Config W F → SearchProvider W) (cfg : Config W F)
      → All IsLawful cfg.providers
      → IsLawful (searxng cfg)
      → All IsLawful (resolve_providers searxng cfg)
  unfolding resolve_providers
  resolve_providers-IsLawful searxng cfg h s =
      choose (not (is_empty cfg.providers)) (not (is_empty cfg.searxng_url))
    where
      choose :
          (t u : Bool)
          → All IsLawful (if t then cfg.providers else if u then searxng cfg ∷ [] else [])
      choose true u = h
      choose false true = (s, tt)
      choose false false = tt

module _ {W Img Hash F : Type 0} (env : Environment W Img Hash F) ⦃p : Platform⦄
    (searxng : Config W F → SearchProvider W) (config : Config W F) (max_results : ℤ) where
  -- Where the configured providers keep the contract, and the one for SearXNG that is made of the
  -- configuration, no search returns a logo, a banner or an image with a blocked licence.
  pub Searches-IsAllowed :
      {ctx : Context} {query : Text} {opts : SearchOpts} {w : W} {results : List ImageCandidate}
      → All IsLawful config.providers
      → IsLawful (searxng (defaults env.default_client config))
      → Searches env searxng config max_results ctx query opts w results
      → All IsAllowed results
  unfolding defaults
  Searches-IsAllowed {results} h s r =
      All-map _ IsAllowed
        (λ c o.
          Offered-IsAllowed _ _ _ _ c
            (resolve_providers-IsLawful searxng (defaults env.default_client config) h s) o.0)
        results (Searches-IsOffered env searxng config max_results r)
