-- ===== src/Tests/Searches.antt =====
-- Searches and providers at concrete inputs.
use go_imagefy.Prelude.{
  to_ℕ, take, any, ℕ, ◌≤◌, pos, some, List, [], ◌∷◌, ◌++◌, length, ◌≡◌, refl, sym, subst, true,
  false, arith, All,
}
use go_imagefy.Text.{Text, contains, fields, has_prefix, index, join, codes}
use go_imagefy.Assessment.{
  assess_license, cc_signals, domain_signals, extra_signals, resolve, stock_signals,
}
use go_imagefy.Dedup.{is_duplicate}
use go_imagefy.Download.{
  accept_image, download as download_image, fetch_image_data, strip_mime, with_defaults,
}
use go_imagefy.Metadata.{is_cc_by_metadata, is_stock_by_metadata}
use go_imagefy.Metadata.Tags.{collect_tags, extract_image_metadata}
use go_imagefy.Platform.{lower, to_lower}
use go_imagefy.Validate.{passes_probe, probe, validate_image_url, validation_client}
use go_imagefy.License.{license_safe, license_unknown, license_blocked}
use go_imagefy.Candidate.{is_logo_or_banner, logo_banner_patterns, ImageCandidate}
use go_imagefy.Config.{Config, SearchProvider, defaults}
use go_imagefy.Pipeline.Schedule.{
  Machine, launch, Reach, here, next, spawn, stop, acquire, download, unique, accept, append, drift,
}
use go_imagefy.Pipeline.{
  assessed, decoded, download_for_validation, is_blocked_by_extra_domains, names_extra_domain,
  Downloaded, fetch, dedup, judge, append_validated,
}
use go_imagefy.Http.{new_request, read_limited, send_built, Context}
use go_imagefy.Pipeline.Schedule.Invariant.{IsAccepted, IsResult}
use go_imagefy.Pipeline.Schedule.Memory.{IsStored, IsRemembered}
use go_imagefy.Pipeline.Schedule.Outcome.{validated-IsResult, hashes-AreApart}
use go_imagefy.Dedup.Distinct.{AreApart}
use go_imagefy.Search.{
  sort_by_license, resolve_providers, search_context, announce, nobody, somebody, Validates,
  finished, Searches, searched,
}
use go_imagefy.Search.Order.{of_license, sort_by_license_lem}
use go_imagefy.Search.Results.{Offered, Searches-IsOffered, Validates-total}
use go_imagefy.Query.{build_image_query_lang}
use go_imagefy.Query.Words.{Kept, AreStopWordsOf, WithCity, build_image_query_lang_lem}
use go_imagefy.Text.Search.{Occurs}
use go_imagefy.Find.{FindOpts, effective_max_results, page_candidates, not_asked, Finds, merged}
use go_imagefy.Find.Origins.{HasOrigin, Finds-HasOrigin}
use go_imagefy.Fallback.{FallbackProvider, search}
use go_imagefy.Fallback.First.{Ends, search-Ends}
use go_imagefy.Searxng.{SearxngResult, filter}
use go_imagefy.Searxng.Filter.{Filtered, filter-Filtered}
use go_imagefy.Tests.World.{
  ascii, env, plain, photo, other_photo, two_photos, broken_provider, plain_opts,
}

sort_by_license_lem_example :
    sort_by_license (other_photo ∷ photo ∷ [])
    ≡ of_license license_safe (other_photo ∷ photo ∷ [])
      ++ (of_license license_unknown (other_photo ∷ photo ∷ [])
          ++ of_license license_blocked (other_photo ∷ photo ∷ []))
sort_by_license_lem_example = sort_by_license_lem (other_photo ∷ photo ∷ [])

abbrev pub with_providers : List (SearchProvider ℕ) → Config ℕ ℕ
with_providers ps = record plain { providers = ps }

abbrev one_provider : Config ℕ ℕ
one_provider = with_providers (two_photos ∷ [])

-- Without a SearXNG address no provider is made of the configuration.
abbrev no_searxng : Config ℕ ℕ → SearchProvider ℕ
no_searxng cfg = broken_provider

abbrev cfg_of : List (SearchProvider ℕ) → Config ℕ ℕ
cfg_of ps = defaults env.default_client (with_providers ps)

abbrev ctx : Context
ctx = search_context [] plain_opts

abbrev candidates : List ImageCandidate
candidates = other_photo ∷ photo ∷ []

abbrev image : Downloaded ℕ
image = record { bytes = 1 ∷ 2 ∷ 3 ∷ []; mime_type = codes "image/png"; image = some 7 }

sorted : sort_by_license candidates ≡ photo ∷ other_photo ∷ []
unfolding sort_by_license
sorted = refl

fetched_photo :
    (ps : List (SearchProvider ℕ)) (ctx : Context) (w : ℕ)
    → (fetch env (cfg_of ps) ctx photo w).0 ≡ some image
unfolding fetch validate_image_url is_logo_or_banner any logo_banner_patterns contains to_lower
    probe passes_probe send_built new_request validation_client defaults is_blocked_by_extra_domains
    names_extra_domain download_for_validation download_image fetch_image_data accept_image
    strip_mime with_defaults read_limited decoded lower has_prefix index
fetched_photo _ _ _ = refl

judged_photo :
    (ps : List (SearchProvider ℕ)) (ctx : Context) (w : ℕ)
    → (judge env (cfg_of ps) ctx photo image w).0 ≡ true
unfolding judge assessed assess_license resolve domain_signals extra_signals defaults stock_signals
    is_stock_by_metadata extract_image_metadata collect_tags cc_signals is_cc_by_metadata
judged_photo _ _ _ = refl

new_photo :
    (ps : List (SearchProvider ℕ)) (ctx : Context)
    → (dedup env (cfg_of ps) ctx [] (some 7)).0 ≡ false
unfolding dedup is_duplicate any
new_photo _ _ = refl

-- The loop starts a goroutine, which ends before the loop goes on, and sees that there is enough.
one_result :
    Validates env no_searxng one_provider (pos 1) ctx (photo ∷ other_photo ∷ []) 1 (photo ∷ [])
unfolding append_validated
one_result =
    finished
      (next
        (next
          (next
            (next
              (next
                (next (next here (spawn photo (other_photo ∷ []) refl refl))
                  (acquire [] [] photo refl (omega arith)))
                (download [] [] photo image refl (fetched_photo _ _ _)))
              (unique [] [] photo image refl (new_photo _ _)))
            (accept [] [] photo image refl (judged_photo _ _ _)))
          (append [] [] photo refl))
        (stop other_photo [] refl refl))
      (refl, refl, refl) refl

one_found : Searches env no_searxng one_provider (pos 1) [] (codes "cat") plain_opts 0 (photo ∷ [])
unfolding resolve_providers announce defaults
one_found =
    searched {candidates = candidates} (λ e. cc) (somebody [] [] two_photos refl (nobody 1) refl)
      (λ e. cc)
      (subst (λ cs. Validates env no_searxng one_provider (pos 1) ctx cs 1 (photo ∷ []))
        (sym sorted) one_result)

Searches-IsOffered_example :
    All
      (λ c.
        Offered
          (search_context [] plain_opts)
          (codes "cat")
          plain_opts
          (resolve_providers no_searxng (defaults env.default_client one_provider))
          c
        × IsAccepted env
            (defaults env.default_client one_provider)
            (search_context [] plain_opts)
            (pos 1)
            c)
      (photo ∷ [])
Searches-IsOffered_example = Searches-IsOffered env no_searxng one_provider (pos 1) one_found

abbrev fallback : FallbackProvider ℕ
fallback = record { providers = broken_provider ∷ two_photos ∷ []; fallback_name = [] }

search-Ends_example :
    Ends []
      (codes "cat")
      plain_opts
      fallback.providers
      0
      (search [] (codes "cat") plain_opts fallback 0)
search-Ends_example = search-Ends [] (codes "cat") plain_opts fallback 0

abbrev logo : SearxngResult
logo = record { img_src = codes "a.org/logo.png"; thumbnail = []; url = codes "a.org"; title = [] }

filter-Filtered_example : Filtered (logo ∷ []) (filter (logo ∷ []))
filter-Filtered_example = filter-Filtered (logo ∷ [])

build_image_query_lang_lem_example :
    (stops kept : List Text) × AreStopWordsOf (codes "en-US") stops
    × Kept stops (fields (codes "The best parks, in Riga")) kept
    × WithCity
        (join (take 5 kept) (codes " "))
        (codes "riga")
        (build_image_query_lang (codes "The best parks, in Riga") (codes "riga") (codes "en-US"))
    × Occurs (to_lower (codes "riga")) (
        to_lower
          (build_image_query_lang (codes "The best parks, in Riga") (codes "riga") (codes "en-US")))
build_image_query_lang_lem_example =
    build_image_query_lang_lem (codes "The best parks, in Riga") (codes "riga") (codes "en-US")

-- The caller gives a photo, and neither a query nor a page.
abbrev pub given : FindOpts
given = record {
  query = [];
  page_url = [];
  external = photo ∷ [];
  max_results = pos 0;
  search_opts = plain_opts;
}

-- The end of the validation of the photo.
abbrev one_kept : Machine ℕ ℕ ℕ
one_kept = record (launch (photo ∷ []) 0) {
  waiting = [];
  validated = photo ∷ [];
  hashes = 7 ∷ [];
  world = 2;
}

given_run :
    (ps : List (SearchProvider ℕ))
    → Reach env (cfg_of ps) [] (pos 3) (launch (photo ∷ []) 0) one_kept
unfolding append_validated dedup is_duplicate any
given_run ps =
    next
      (next
        (next
          (next
            (next
              (next (next here (spawn photo [] refl refl)) (acquire [] [] photo refl (omega arith)))
              (download [] [] photo image refl (fetched_photo _ _ _)))
            (unique [] [] photo image refl (new_photo ps [])))
          (accept [] [] photo image refl (judged_photo _ _ _)))
        (append [] [] photo refl))
      (drift 2)

validated-IsResult_example :
    All (IsResult env (cfg_of []) [] (pos 3) (photo ∷ [])) one_kept.validated
validated-IsResult_example =
    validated-IsResult env (cfg_of []) [] (pos 3) (photo ∷ []) 0 (given_run [])

hashes-AreApart_example :
    AreApart env.hashing one_kept.hashes
    × All (IsRemembered env (cfg_of []) [] one_kept.hashes) one_kept.active
    × All (IsStored env (cfg_of []) [] one_kept.hashes) one_kept.validated
hashes-AreApart_example = hashes-AreApart env (cfg_of []) [] (pos 3) (photo ∷ []) 0 (given_run [])

pub given_result :
    (asked : Config ℕ ℕ → SearchProvider ℕ) (ps : List (SearchProvider ℕ))
    → Validates env asked (with_providers ps) (pos 3) [] (photo ∷ []) 0 (photo ∷ [])
unfolding append_validated
given_result asked ps = finished (given_run ps) (refl, refl, refl) refl

pub given_found :
    (asked page_provider : Config ℕ ℕ → SearchProvider ℕ) (ps : List (SearchProvider ℕ))
    → Finds env asked page_provider (with_providers ps) [] given 0 (photo ∷ [])
unfolding page_candidates sort_by_license
given_found asked page_provider ps = merged (not_asked refl) (λ e. cc) (given_result asked ps)

Finds-HasOrigin_example :
    (length (photo ∷ []) ≤ to_ℕ (effective_max_results given))
    × All
        (λ c.
          HasOrigin no_searxng no_searxng (defaults env.default_client one_provider) [] given c
          × IsAccepted env
              (defaults env.default_client one_provider)
              []
              (effective_max_results given)
              c)
        (photo ∷ [])
Finds-HasOrigin_example =
    Finds-HasOrigin env no_searxng no_searxng one_provider
      (given_found no_searxng no_searxng (two_photos ∷ []))

Validates-total_example :
    (results : List ImageCandidate) × (Validates env no_searxng one_provider
        (pos 1)
        []
        candidates
        0
        results
      × (length results ≤ to_ℕ (pos 1)))
Validates-total_example = Validates-total env no_searxng one_provider (pos 1) [] candidates 0
