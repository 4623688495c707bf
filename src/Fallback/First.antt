-- ===== src/Fallback/First.antt =====
-- Which provider's results a fallback gives.
use go_imagefy.Prelude.{
  Option, some, none, List, [], ◌∷◌, ◌++◌, ◌≡◌, ◌≢◌, ◌⊎◌, inl, inr, refl, sym, ap, subst,
}
use go_imagefy.Text.{Text}
use go_imagefy.Http.{Context}
use go_imagefy.Candidate.{ImageCandidate}
use go_imagefy.Config.{SearchProvider, SearchOpts, SearchError, SearchResult, found, failed}
use go_imagefy.Fallback.{FallbackProvider, try_providers, search}

-- An error, or no results.
abbrev pub IsNothing : SearchResult → Type 0
IsNothing (failed e) = Unit
IsNothing (found cs) = cs ≡ []

results_cases :
    (r : SearchResult)
    → ((e : SearchError) × (r ≡ failed e))
      ⊎ (r ≡ found [])
      ⊎ ((c : ImageCandidate) × (cs : List ImageCandidate) × (r ≡ found (c ∷ cs)))
results_cases (failed e) = inl (e, refl)
results_cases (found []) = inr (inl refl)
results_cases (found (c ∷ cs)) = inr (inr (c, cs, refl))

module _ {W : Type 0} (ctx : Context) (query : Text) (opts : SearchOpts) where
  -- The world after these providers are asked in turn.
  abbrev pub asked : List (SearchProvider W) → W → W
  asked [] w = w
  asked (q ∷ qs) w = asked qs (q.search ctx query opts w).1

  -- None of these providers, asked in turn, has results.
  abbrev pub Idle : List (SearchProvider W) → W → Type 0
  Idle [] w = Unit
  Idle (q ∷ qs) w = IsNothing (q.search ctx query opts w).0 × Idle qs (q.search ctx query opts w).1

  -- All providers are idle and the search ends with an error, or the first that is not idle gives
  -- the result.
  abbrev pub Ends : List (SearchProvider W) → W → SearchResult × W → Type 0
  Ends ps w r =
      (Idle ps w × ((e : SearchError) × (r ≡ (failed e, asked ps w))))
      ⊎ ((before : List (SearchProvider W)) × (q : SearchProvider W) × (after : List
            (SearchProvider W))
          × (cs : List ImageCandidate) × (ps ≡ before ++ q ∷ after)
          × Idle before w
          × (cs ≢ [])
          × ((q.search ctx query opts (asked before w)).0 ≡ found cs)
          × (r ≡ (found cs, (q.search ctx query opts (asked before w)).1)))

  Ends-later :
      (q : SearchProvider W) (qs : List (SearchProvider W)) (w : W) (r : SearchResult × W)
      → IsNothing (q.search ctx query opts w).0
      → Ends qs (q.search ctx query opts w).1 r
      → Ends (q ∷ qs) w r
  Ends-later q qs w r n (inl (idle, (e, h))) = inl ((n, idle), (e, h))
  Ends-later q qs w r n (inr (before, p, after, cs, split, idle, ne, a, h)) =
      inr (q ∷ before, p, after, cs, ap (λ l. q ∷ l) split, (n, idle), ne, a, h)

  after_failed :
      (q : SearchProvider W) (qs : List (SearchProvider W)) (last : Option SearchError) (w : W)
      (e : SearchError)
      → (q.search ctx query opts w).0 ≡ failed e
      → try_providers ctx query opts (q ∷ qs) last w
        ≡ try_providers ctx query opts qs (some e) (q.search ctx query opts w).1
  unfolding try_providers
  after_failed q qs last w e h = rw (h) refl

  after_empty :
      (q : SearchProvider W) (qs : List (SearchProvider W)) (last : Option SearchError) (w : W)
      → (q.search ctx query opts w).0 ≡ found []
      → try_providers ctx query opts (q ∷ qs) last w
        ≡ try_providers ctx query opts qs last (q.search ctx query opts w).1
  unfolding try_providers
  after_empty q qs last w h = rw (h) refl

  try_providers-Ends :
      (ps : List (SearchProvider W)) (last : Option SearchError) (w : W)
      → Ends ps w (try_providers ctx query opts ps last w)
  unfolding try_providers
  try_providers-Ends [] none w = inl (tt, (_, refl))
  try_providers-Ends [] (some e) w = inl (tt, (e, refl))
  try_providers-Ends (q ∷ qs) last w = elim (results_cases (q.search ctx query opts w).0) [
    | inl (e, h) ↦
        subst (Ends (q ∷ qs) w) (sym (after_failed q qs last w e h))
          (Ends-later q qs w _ (rw (h) tt) (try_providers-Ends qs (some e) _))
    | inr (inl h) ↦
        subst (Ends (q ∷ qs) w) (sym (after_empty q qs last w h))
          (Ends-later q qs w _ (rw (h) refl) (try_providers-Ends qs last _))
    | inr (inr (c, cs, h)) ↦ inr ([], q, qs, c ∷ cs, refl, tt, (λ e. cc), h, rw (h) refl)
  ]

  -- Asked in turn, either no provider has results and the search fails, or the results are those of
  -- the first provider that has any; the providers behind it are not asked.
  pub search-Ends :
      (f : FallbackProvider W) (w : W) → Ends f.providers w (search ctx query opts f w)
  unfolding search
  search-Ends f w = try_providers-Ends f.providers none w
