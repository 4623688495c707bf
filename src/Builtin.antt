-- ===== src/Builtin.antt =====
-- The providers that search.go and find.go make of a configuration themselves.
use go_imagefy.Platform.{Platform}
use go_imagefy.Http.{Client}
use go_imagefy.Config.{Config, SearchProvider}
use go_imagefy.Web.{Codec}
use go_imagefy.Searxng
use go_imagefy.Searxng.{SearxngResult}
use go_imagefy.ImageTag.{JsonLd}
use go_imagefy.Content

module _ ⦃p : Platform⦄ {W F : Type 0} (default_client : Client W) where
  -- The provider of `resolveProviders`.
  abbrev pub searxng_of : Codec SearxngResult → Config W F → SearchProvider W
  searxng_of codec cfg =
      Searxng.provider codec default_client (record {
        url = cfg.searxng_url;
        http_client = cfg.http_client;
        user_agent = cfg.user_agent;
      })

  -- The provider of `FindImages`.
  abbrev pub content_of : JsonLd → Config W F → SearchProvider W
  content_of json cfg =
      Content.provider json default_client (record { http_client = cfg.http_client })
