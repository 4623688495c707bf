-- ===== src/Tests/Providers.antt =====
-- Providers and searches over them, at concrete inputs.
use go_imagefy.Prelude.{ℕ, none, some, [], ◌∷◌, ◌≡◌, ◌⊎◌, inl, inr, subst, All, Any}
use go_imagefy.Text.{codes}
use go_imagefy.Config.{Config, SearchProvider}
use go_imagefy.Web.{Codec}
use go_imagefy.Openverse
use go_imagefy.Openverse.{OpenverseResult, OpenverseProvider}
use go_imagefy.Pexels
use go_imagefy.Pexels.{PexelsOfficialPhoto, PexelsInternalItem, PexelsProvider}
use go_imagefy.Pexels.Keys.{Asks, search-Asks}
use go_imagefy.Builtin.{searxng_of, content_of}
use go_imagefy.Fallback
use go_imagefy.Fallback.{FallbackProvider}
use go_imagefy.Contract.{IsAllowed, IsLawful}
use go_imagefy.Contract.Builtin.{
  IsBuiltin, openverse, fallback, IsBuiltin-IsLawful, Finds-IsAllowed,
}
use go_imagefy.Tests.Searches.{with_providers, given, given_found}
use go_imagefy.Tests.Pages.{no_json}
use go_imagefy.Tests.World.{ascii, env, server, plain_opts, photo}

-- Escapes nothing, and decodes every answer as no results.
abbrev empty_codec : {R : Type 0} → Codec R
empty_codec = record { query_escape = λ s. s; unmarshal = λ bytes. some [] }

abbrev free_images : OpenverseProvider ℕ
free_images = record { base_url = []; http_client = none; user_agent = [] }

abbrev free_provider : SearchProvider ℕ
free_provider = Openverse.provider empty_codec server free_images

abbrev only_free : FallbackProvider ℕ
only_free = record { providers = free_provider ∷ []; fallback_name = [] }

abbrev only_free-IsBuiltin : IsBuiltin server (Fallback.provider only_free)
only_free-IsBuiltin = fallback only_free (λ q h. elim h [
  | inl e ↦ subst (IsBuiltin server) e (openverse empty_codec free_images)
  | inr a ↦ absurd a
])

IsBuiltin-IsLawful_example : IsLawful (Fallback.provider only_free)
IsBuiltin-IsLawful_example = IsBuiltin-IsLawful server only_free-IsBuiltin

abbrev asked : Config ℕ ℕ → SearchProvider ℕ
asked = searxng_of server empty_codec

abbrev of_page : Config ℕ ℕ → SearchProvider ℕ
of_page = content_of server no_json

-- The caller gives a photo, and the only provider is the fallback.
Finds-IsAllowed_example : All (λ c. IsAllowed c ⊎ Any (λ x. x ≡ c) given.external) (photo ∷ [])
Finds-IsAllowed_example =
    Finds-IsAllowed env empty_codec no_json (with_providers (Fallback.provider only_free ∷ []))
      (only_free-IsBuiltin, tt) (given_found asked of_page (Fallback.provider only_free ∷ []))

-- With an API key only.
abbrev one_key : PexelsProvider ℕ
one_key = record {
  api_key = codes "k";
  secret_key = [];
  http_client = none;
  user_agent = [];
  official_base = [];
  internal_base = [];
}

search-Asks_example :
    Asks empty_codec empty_codec server one_key []
      (codes "cat")
      plain_opts
      0
      (Pexels.search empty_codec empty_codec server one_key [] (codes "cat") plain_opts 0)
search-Asks_example =
    search-Asks empty_codec empty_codec server one_key [] (codes "cat") plain_opts 0
