-- ===== src/Config.antt =====
-- imagefy.go: the configuration, the interfaces that the caller injects, and `defaults`.
-- Panics are not modelled, so neither is the callback `OnPanic`.
pub mod Environment
use go_imagefy.Prelude.{
  ℕ, ℤ, pos, Bool, Option, some, none, List, [], leb_ℤ, is_empty, if◌then◌else◌,
}
use go_imagefy.Text.{Text, codes}
use go_imagefy.Http.{Io, Context, Client, Duration}
use go_imagefy.Classes.{ClassificationResult}
use go_imagefy.Candidate.{ImageCandidate}

abbrev pub default_min_image_width : ℤ
default_min_image_width = pos 880

abbrev pub default_user_agent : Text
default_user_agent = codes "Mozilla/5.0 (compatible; go-imagefy/1.0)"

pub record ImageInput : Type 0 where
  pub url : Text
  pub mime_type : Text

-- The cache of classification results, as the program uses it; `none` is a miss.
pub record Cache (W F : Type 0) : Type 0 where
  pub key : Text → Text → Text
  pub get : Context → Text → Io W (Option (ClassificationResult F))
  pub set : Context → Text → ClassificationResult F → Io W (Unit {0})

-- `none` is an error.
pub record Classifier (W : Type 0) : Type 0 where
  pub classify : Context → Text → List ImageInput → Io W (Option Text)

pub record ClassificationEvent (F : Type 0) : Type 0 where
  pub url : Text
  pub class : Text
  pub confidence : F
  pub source : Text

pub record SearchOpts : Type 0 where
  pub page_number : ℤ
  pub engines : List Text
  pub timeout : Duration
  pub page_url : Text

-- What can go wrong in a search.
pub data SearchError : Type 0 where
  bad_request transport_failed read_failed bad_json no_token no_api_key all_providers_failed :
      SearchError
  bad_status : ℕ → SearchError
  wrapped : Text → SearchError → SearchError
  -- An error of a provider that the caller implements.
  foreign : ℕ → SearchError

pub data SearchResult : Type 0 where
  found : List ImageCandidate → SearchResult
  failed : SearchError → SearchResult

-- `SearchProvider` of provider.go.
pub record SearchProvider (W : Type 0) : Type 0 where
  pub name : Text
  pub search : Context → Text → SearchOpts → Io W SearchResult

pub record Config (W F : Type 0) : Type 0 where
  pub cache : Option (Cache W F)
  pub classifier : Option (Classifier W)
  pub stealth_client : Option (Client W)
  pub http_client : Option (Client W)
  pub searxng_url : Text
  pub min_image_width : ℤ
  pub user_agent : Text
  pub providers : List (SearchProvider W)
  pub vision_prompt : Text
  pub extra_blocked_domains : List Text
  pub extra_safe_domains : List Text
  pub ox_browser_url : Text
  pub on_image_search : Option (Io W (Unit {0}))
  pub on_classification : Option (ClassificationEvent F → Io W (Unit {0}))

-- A client that may be nil, with `http.DefaultClient` in its place.
abbrev pub client_or : {W : Type 0} → Option (Client W) → Client W → Client W
client_or none default_client = default_client
client_or (some c) default_client = c

-- `Config.defaults`.
unfoldable pub defaults : {W F : Type 0} → Client W → Config W F → Config W F
defaults default_client c = record c {
  min_image_width =
      if leb_ℤ c.min_image_width (pos 0) then default_min_image_width else c.min_image_width;
  user_agent = if is_empty c.user_agent then default_user_agent else c.user_agent;
  http_client = some (client_or c.http_client default_client);
}
