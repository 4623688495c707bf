-- ===== src/Fallback.antt =====
-- orchestrator.go: `FallbackProvider`, which tries providers in order.
pub mod First
use go_imagefy.Prelude.{Option, some, none, List, [], ◌∷◌, is_empty, if◌then◌else◌}
use go_imagefy.Text.{Text, codes}
use go_imagefy.Http.{Io, Context}
use go_imagefy.Config.{
  SearchProvider, SearchOpts, SearchError, all_providers_failed, SearchResult, found, failed,
}

pub record FallbackProvider (W : Type 0) : Type 0 where
  pub providers : List (SearchProvider W)
  pub fallback_name : Text

-- `FallbackProvider.Name`.
unfoldable pub name : {W : Type 0} → FallbackProvider W → Text
name f = if is_empty f.fallback_name then codes "fallback" else f.fallback_name

-- The error at the end, given the last one met.
abbrev pub exhausted : Option SearchError → SearchError
exhausted none = all_providers_failed
exhausted (some e) = e

module _ {W : Type 0} (ctx : Context) (query : Text) (opts : SearchOpts) where
  -- The loop, with the last error met.
  unfoldable pub try_providers : List (SearchProvider W) → Option SearchError → Io W SearchResult
  try_providers [] last w = (failed (exhausted last), w)
  try_providers (q ∷ qs) last w =
      let answer = q.search ctx query opts w in
      elim answer.0 [
        | failed e ↦ try_providers qs (some e) answer.1
        | found [] ↦ try_providers qs last answer.1
        | found (c ∷ cs) ↦ (found (c ∷ cs), answer.1)
      ]

  -- `FallbackProvider.Search`.
  unfoldable pub search : FallbackProvider W → Io W SearchResult
  unfolding try_providers
  search f = try_providers f.providers none

-- The same, as a provider.
abbrev pub provider : {W : Type 0} → FallbackProvider W → SearchProvider W
provider f = record { name = name f; search = λ ctx query opts. search ctx query opts f }
