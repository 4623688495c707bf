-- ===== src/Ddg.antt =====
-- provider_ddg.go: the provider that asks DuckDuckGo, first for a token and then for the images.
pub mod Token
use go_imagefy.Prelude.{
  ℕ, ◌*◌, ℤ, pos, Bool, true, false, Option, some, none, List, [], ◌∷◌, ◌++◌, is_empty,
  if◌then◌else◌, ◌&&◌, ◌||◌, leb, ◌==◌,
}
use go_imagefy.Text.{Text, codes}
use go_imagefy.Platform.{Platform, to_lower, text_of_bytes}
use go_imagefy.License.{is_license_blocked, check_license}
use go_imagefy.Candidate.{ImageCandidate, is_logo_or_banner}
use go_imagefy.Http.{Io, pure, ◌>>=◌, Context, Client}
use go_imagefy.Config.{
  SearchProvider, SearchOpts, no_token, wrapped, SearchResult, failed, client_or,
}
use go_imagefy.Regexp.{Re, Match, group, find, captured}
use go_imagefy.Regexp.Syntax.{exactly, plus, is_digit, ◌>◌}
use go_imagefy.Web.{Codec, Attempt, success, failure, below_400, get_body, decode, candidates_from}

abbrev pub ddg_body_limit : ℕ
ddg_body_limit = 2 * 1024 * 1024

abbrev pub ddg_base_url : Text
ddg_base_url = codes "https://duckduckgo.com"

abbrev pub browser_agent : Text
browser_agent =
    codes
      "Mozilla/5.0 (X11; Linux x86_64) AppleWebKit/537.36 (KHTML, like Gecko) Chrome/131.0.0.0 Safari/537.36"

pub record DdgImageProvider (W : Type 0) : Type 0 where
  pub http_client : Option (Client W)
  pub user_agent : Text

pub record DdgImageResult : Type 0 where
  pub image : Text
  pub thumbnail : Text
  pub url : Text
  pub title : Text
  pub width : ℤ
  pub height : ℤ

-- `[0-9a-f-]`.
abbrev pub in_token : ℕ → Bool
in_token c = is_digit c || (leb b'a' c && leb c b'f' || c == b'-')

-- `vqdRe`.
unfoldable pub vqd_re : Re
vqd_re = exactly (codes "vqd=") > group 1 (plus in_token)

-- The address of the page with the token, and that of the images.
unfoldable pub token_url : (Text → Text) → Text → Text
token_url query_escape query =
    ddg_base_url ++ (codes "/?q=" ++ (query_escape query ++ codes "&iax=images&ia=images"))

unfoldable pub images_url : (Text → Text) → Text → Text → Text
images_url query_escape query token =
    ddg_base_url
    ++ (codes "/i.js?l=ru-ru&o=json&q="
        ++ (query_escape query ++ (codes "&vqd=" ++ (query_escape token ++ codes "&f=,,,,,&p=1"))))

-- The headers that `get` sets.
abbrev pub headers : Text → List (Text × Text)
headers user_agent =
    (codes "User-Agent", if is_empty user_agent then browser_agent else user_agent)
    ∷ (codes "Accept", codes "text/html,application/xhtml+xml,application/json,*/*")
    ∷ (codes "Accept-Language", codes "ru-RU,ru;q=0.9,en-US;q=0.8,en;q=0.7")
    ∷ (codes "Referer", ddg_base_url ++ codes "/")
    ∷ []

module _ ⦃p : Platform⦄ where
  -- What is made of the page: its token.
  unfoldable pub token_of : Attempt (List ℕ) → Attempt Text
  token_of (failure e) = failure e
  token_of (success body) = elim (find vqd_re (text_of_bytes body)) [
    | none ↦ failure no_token
    | some m ↦ success (captured 1 m.captures)
  ]

  -- A round of the loop in `filter`.
  unfoldable pub make : DdgImageResult → Option ImageCandidate
  make r =
      let license = check_license r.image r.url in
      if is_empty r.image
      then none
      else if is_logo_or_banner (to_lower r.image)
      then none
      else if is_license_blocked license
      then none
      else some (record {
        img_url = r.image;
        thumbnail = r.thumbnail;
        source = r.url;
        title = r.title;
        license = license;
        width = pos 0;
        height = pos 0;
        engine = [];
      })

  -- `fmt.Errorf("…: %w", err)`, where there is an error.
  abbrev pub with_note : {A : Type 0} → Text → Attempt A → Attempt A
  with_note note (failure e) = failure (wrapped note e)
  with_note note (success a) = success a

  module _ {W : Type 0} (codec : Codec DdgImageResult) (default_client : Client W) where
    -- `DDGImageProvider.get`.
    unfoldable pub get_page : DdgImageProvider W → Context → Text → Io W (Attempt (List ℕ))
    get_page prov ctx url =
        get_body (client_or prov.http_client default_client) ctx url (headers prov.user_agent)
          below_400 ddg_body_limit

    -- `fetchToken`.
    unfoldable pub fetch_token : DdgImageProvider W → Context → Text → Io W (Attempt Text)
    unfolding get_page token_of token_url
    fetch_token prov ctx query = do
      body ← get_page prov ctx (token_url codec.query_escape query)
      pure (token_of body)

    -- `fetchImages`.
    unfoldable pub fetch_images :
        DdgImageProvider W → Context → Text → Text → Io W (Attempt (List DdgImageResult))
    unfolding get_page images_url
    fetch_images prov ctx query token = do
      body ← get_page prov ctx (images_url codec.query_escape query token)
      pure (decode codec.unmarshal body)

    -- The search from the token on.
    unfoldable pub search_with :
        DdgImageProvider W → Context → Text → Attempt Text → Io W SearchResult
    unfolding fetch_images make
    search_with prov ctx query (failure e) = pure (failed (wrapped (codes "ddg token") e))
    search_with prov ctx query (success token) = do
      results ← fetch_images prov ctx query token
      pure (candidates_from make (with_note (codes "ddg images") results))

    -- `DDGImageProvider.Search`.
    unfoldable pub search : DdgImageProvider W → Context → Text → SearchOpts → Io W SearchResult
    unfolding fetch_token search_with
    search prov ctx query opts = do
      token ← fetch_token prov ctx query
      search_with prov ctx query token

    abbrev pub provider : DdgImageProvider W → SearchProvider W
    provider prov = record {
      name = codes "ddg";
      search = λ ctx query opts. search prov ctx query opts;
    }
