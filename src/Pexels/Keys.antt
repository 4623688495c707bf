-- ===== src/Pexels/Keys.antt =====
-- Which of its two APIs the Pexels provider asks.
use go_imagefy.Prelude.{
  Bool, true, false, not, List, is_empty, if◌then◌else◌, ◌≡◌, inl, inr, refl, subst, Bool-cases,
}
use go_imagefy.Text.{Text}
use go_imagefy.Platform.{Platform}
use go_imagefy.Candidate.{ImageCandidate}
use go_imagefy.Http.{Io, Context, Client}
use go_imagefy.Config.{SearchOpts, SearchError, no_api_key, SearchResult, found, failed}
use go_imagefy.Web.{Codec}
use go_imagefy.Pexels.{
  PexelsOfficialPhoto, PexelsInternalItem, PexelsProvider, official_url, internal_url,
  search_official, search_internal, second_try, or_second, search,
}

module _ ⦃p : Platform⦄ {W : Type 0} (official : Codec PexelsOfficialPhoto)
    (internal : Codec PexelsInternalItem) (default_client : Client W) (prov : PexelsProvider W)
    (ctx : Context) (query : Text) (opts : SearchOpts) where
  -- A request to the one API, and to the other.
  abbrev pub ask_official : Io W SearchResult
  ask_official =
      search_official official internal default_client prov ctx (official_url prov) query opts

  abbrev pub ask_internal : Io W SearchResult
  ask_internal =
      search_internal official internal default_client prov ctx (internal_url prov) query opts

  abbrev pub HasApiKey : Bool → Type 0
  HasApiKey b = is_empty prov.api_key ≡ not b

  abbrev pub HasSecretKey : Bool → Type 0
  HasSecretKey b = is_empty prov.secret_key ≡ not b

  -- What the search does, by its keys and the official API's answer.
  pub data Asks (w : W) : SearchResult × W → Type 0 where
    official_answers :
        (cs : List ImageCandidate)
        → HasApiKey true
        → (ask_official w).0 ≡ found cs
        → Asks w (ask_official w)
    internal_next :
        (e : SearchError)
        → HasApiKey true
        → HasSecretKey true
        → (ask_official w).0 ≡ failed e
        → Asks w (ask_internal (ask_official w).1)
    official_again :
        (e : SearchError)
        → HasApiKey true
        → HasSecretKey false
        → (ask_official w).0 ≡ failed e
        → Asks w (ask_official (ask_official w).1)
    internal_only : HasApiKey false → HasSecretKey true → Asks w (ask_internal w)
    no_keys : HasApiKey false → HasSecretKey false → Asks w (failed no_api_key, w)

  second : Io W SearchResult
  second = second_try official internal default_client prov ctx query opts

  second-Asks :
      (e : SearchError) (w : W)
      → HasApiKey true
      → (ask_official w).0 ≡ failed e
      → Asks w (second (ask_official w).1)
  unfolding second second_try
  second-Asks e w k f = elim (Bool-cases (is_empty prov.secret_key)) [
    | inl s ↦ simp (s, k) (official_again e k s f)
    | inr s ↦ simp (s) (internal_next e k s f)
  ]

  second-Asks_without_key : (w : W) → HasApiKey false → Asks w (second w)
  unfolding second second_try
  second-Asks_without_key w k = elim (Bool-cases (is_empty prov.secret_key)) [
    | inl s ↦ simp (s, k) (no_keys k s)
    | inr s ↦ simp (s) (internal_only k s)
  ]

  after_official :
      (r : SearchResult) (w : W)
      → HasApiKey true
      → (ask_official w).0 ≡ r
      → Asks w (or_second official internal default_client r second (ask_official w).1)
  after_official (found cs) w k e =
      subst (λ r. Asks w (r, (ask_official w).1)) e (official_answers cs k e)
  after_official (failed err) w k e = second-Asks err w k e

  -- With an API key the official API is asked first, and its answer stands unless it fails; then the
  -- internal API is asked where there is a secret key, and else the official one a second time. With
  -- the secret key only, the internal API is asked; with neither, the search fails at once.
  pub search-Asks : (w : W) → Asks w (search official internal default_client prov ctx query opts w)
  unfolding search second
  search-Asks w = go (is_empty prov.api_key) refl
    where
      go :
          (b : Bool)
          → is_empty prov.api_key ≡ b
          → Asks w (
              (if not b
                  then (λ w.
                      or_second official internal default_client
                        (ask_official w).0
                        second
                        (ask_official w).1)
                  else second)
                w)
      go true k = second-Asks_without_key w k
      go false k = after_official (ask_official w).0 w k refl
