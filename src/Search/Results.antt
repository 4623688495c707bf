-- ===== src/Search/Results.antt =====
-- What a search can return, whatever the providers answer and however the goroutines interleave.
use go_imagefy.Prelude.{
  suc, ◌≤◌, ℤ, to_ℕ, List, sym, Any-at, Any-insert, [], ◌∷◌, length, ◌≡◌, inl, inr, refl, arith,
  All, All-map, All-append, All-Any, Any, subst,
}
use go_imagefy.Text.{Text}
use go_imagefy.Platform.{Platform}
use go_imagefy.Candidate.{ImageCandidate}
use go_imagefy.Http.{Context}
use go_imagefy.Config.{Config, SearchProvider, SearchOpts, defaults}
use go_imagefy.Config.Environment.{Environment}
use go_imagefy.Pipeline.Schedule.Invariant.{IsAccepted}
use go_imagefy.Pipeline.Schedule.{Machine, launch, here}
use go_imagefy.Pipeline.Schedule.Progress.{measure, run_to_end}
use go_imagefy.Pipeline.Schedule.Outcome.{validated-le-max_results, validated-IsResult}
use go_imagefy.License.{ImageLicense, license_safe, license_unknown, license_blocked}
use go_imagefy.Search.Order.{of_license, of_license-cases, sort_by_license_lem}
use go_imagefy.Search.{
  candidates_of, resolve_providers, Gather, nobody, somebody, search_context, sort_by_license,
  Validates, finished, Searches, no_query, no_candidates, searched,
}

-- A provider of the list answers this query with this candidate, in some state of the world.
abbrev pub Offered :
    {W : Type 0} → Context → Text → SearchOpts → List (SearchProvider W) → ImageCandidate → Type 0
Offered {W} ctx query opts ps c =
    (w : W) × Any (λ q. Any (λ x. x ≡ c) (candidates_of (q.search ctx query opts w).0)) ps

-- Each candidate of an answer is offered by it.
pub own : (cs : List ImageCandidate) → All (λ c. Any (λ x. x ≡ c) cs) cs
own [] = tt
own (c ∷ cs) = (inl refl, All-map (λ d. Any (λ x. x ≡ d) cs) _ (λ d h. inr h) cs (own cs))

module _ {W : Type 0} (ctx : Context) (query : Text) (opts : SearchOpts) where
  -- Whatever the order in which the providers end, what is gathered was offered.
  pub Gather-Offered :
      {ps : List (SearchProvider W)} {w w' : W} {all : List ImageCandidate}
      → Gather ctx query opts ps w all w'
      → All (Offered ctx query opts ps) all
  Gather-Offered (nobody w) = tt
  Gather-Offered (somebody before after q {ps} {w} {rest = rest} e g a) =
      let answer = candidates_of (q.search ctx query opts w).0 in
      subst (All (Offered ctx query opts ps)) (sym a) (
        All-append _ answer rest
          (All-map _ _
            (λ c h. (
              w,
              subst (Any (λ r. Any (λ x. x ≡ c) (candidates_of (r.search ctx query opts w).0)))
                  (sym e) (Any-at _ before after q h),
            ))
            answer (own answer))
          (All-map _ _
            (λ c h. (
              h.0,
              subst (Any (λ r. Any (λ x. x ≡ c) (candidates_of (r.search ctx query opts h.0).0)))
                  (sym e) (Any-insert _ before after q h.1),
            ))
            rest (Gather-Offered g)))

of_license-All :
    (P : ImageCandidate → Type 0) (l : ImageLicense) (cs : List ImageCandidate)
    → All P cs
    → All P (of_license l cs)
of_license-All P l [] h = tt
of_license-All P l (c ∷ cs) (pc, h) = elim (of_license-cases l c cs) [
  | inl e ↦ subst (All P) (sym e) (pc, of_license-All P l cs h)
  | inr e ↦ subst (All P) (sym e) (of_license-All P l cs h)
]

-- What holds of all candidates still holds of all when they are sorted.
sort-All :
    (P : ImageCandidate → Type 0) (cs : List ImageCandidate) → All P cs → All P (sort_by_license cs)
sort-All P cs h = subst (All P) (sym (sort_by_license_lem cs)) (
    All-append P _ _ (of_license-All P license_safe cs h) (
      All-append P _ _ (of_license-All P license_unknown cs h)
        (of_license-All P license_blocked cs h)))

module _ {W Img Hash F : Type 0} (env : Environment W Img Hash F) ⦃p : Platform⦄
    (searxng : Config W F → SearchProvider W) (config : Config W F) (max_results : ℤ) where
  pub Validates-le :
      {ctx : Context} {candidates : List ImageCandidate} {w : W} {results : List ImageCandidate}
      → Validates env searxng config max_results ctx candidates w results
      → length results ≤ to_ℕ max_results
  Validates-le (finished run done e) = rw (e) (validated-le-max_results env _ _ max_results _ _ run)

  -- For all candidates and every world there is a run of the validation to its end, and its results
  -- are no more than were asked for.
  pub Validates-total :
      (ctx : Context) (candidates : List ImageCandidate) (w : W)
      → (results : List ImageCandidate) × (Validates env searxng config max_results ctx candidates w
            results
          × (length results ≤ to_ℕ max_results))
  Validates-total ctx candidates w =
      let cfg = defaults env.default_client config in
      let start : Machine W Img Hash = launch candidates w in
      let (m, (r, done)) =
        run_to_end env cfg ctx max_results (suc (measure start)) start (omega arith) here in
      let v = finished r done refl in (m.validated, (v, Validates-le v))

  -- What holds of all candidates holds of the results of their validation, which are accepted.
  pub Validates-All :
      (P : ImageCandidate → Type 0) (candidates : List ImageCandidate) {ctx : Context} {w : W}
      {results : List ImageCandidate}
      → All P candidates
      → Validates env searxng config max_results ctx (sort_by_license candidates) w results
      → All
          (λ c. P c × IsAccepted env (defaults env.default_client config) ctx max_results c)
          results
  Validates-All P candidates h (finished run done e) =
      let genuine = validated-IsResult env _ _ max_results _ _ run in
      subst (All _) (sym e) (
        All-map _ _
          (λ c r.
            let origin = All-Any _ (sort_by_license candidates) (sort-All P candidates h) r.0 in
            (subst P origin.1 origin.2, r.1))
          _ genuine)

  -- A search never returns more images than were asked for.
  pub Searches-le :
      {ctx : Context} {query : Text} {opts : SearchOpts} {w : W} {results : List ImageCandidate}
      → Searches env searxng config max_results ctx query opts w results
      → length results ≤ to_ℕ max_results
  Searches-le (no_query q e) = rw (e) (omega arith)
  Searches-le (no_candidates q g e) = rw (e) (omega arith)
  Searches-le (searched q g some_found v) = Validates-le v

  -- Every image that a search returns was offered by one of the providers for this query, its address
  -- passed the probe, no extra blocked domain blocks it or its page, and the judgement accepted it on
  -- what `downloadForValidation` gave right after the probe.
  pub Searches-IsOffered :
      {ctx : Context} {query : Text} {opts : SearchOpts} {w : W} {results : List ImageCandidate}
      → Searches env searxng config max_results ctx query opts w results
      → All
          (λ c.
            Offered
              (search_context ctx opts)
              query
              opts
              (resolve_providers searxng (defaults env.default_client config))
              c
            × IsAccepted env
                (defaults env.default_client config)
                (search_context ctx opts)
                max_results
                c)
          results
  Searches-IsOffered (no_query q e) = subst (All _) (sym e) tt
  Searches-IsOffered (no_candidates q g e) = subst (All _) (sym e) tt
  Searches-IsOffered {ctx} {query} {opts} (searched {candidates} q g some_found v) =
      Validates-All
        (Offered (search_context ctx opts) query opts
          (resolve_providers searxng (defaults env.default_client config)))
        candidates (Gather-Offered _ _ _ g) v
