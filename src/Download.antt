-- ===== src/Download.antt =====
-- download.go: `Download` and `fetchImageData`.
pub mod Fallback
use go_imagefy.Prelude.{
  ℕ, ◌*◌, ℤ, pos, to_ℕ, leb_ℤ, ltb_ℤ, Bool, true, false, ◌||◌, Option, some, none, List, [], ◌∷◌,
  is_empty, length, take, if◌then◌else◌,
}
use go_imagefy.Text.{Text, codes, has_prefix, index, trim_space}
use go_imagefy.Platform.{Platform}
use go_imagefy.Http.{
  Io, pure, ◌>>=◌, Duration, seconds, Context, with_timeout, Client, Response, Request, send_built,
  new_request, read_limited, status_ok, get,
}
use go_imagefy.Config.{Config, defaults, client_or}
use go_imagefy.Config.Environment.{Environment}
use go_imagefy.Prelude.{◌==◌, not}

pub record DownloadOpts : Type 0 where
  pub max_bytes : ℤ
  pub min_bytes : ℤ
  pub timeout : Duration
  pub user_agent : Text

abbrev pub default_max_bytes : ℤ
default_max_bytes = pos (200 * 1024)

abbrev pub default_timeout : Duration
default_timeout = seconds 10

pub record DownloadResult : Type 0 where
  pub bytes : List ℕ
  pub mime_type : Text

-- "image/jpeg; charset=utf-8" becomes "image/jpeg".
unfoldable pub strip_mime : Text → Text
strip_mime ct = elim (index ct (codes ";")) [ none ↦ ct | some idx ↦ trim_space (take idx ct) ]

-- What `fetchImageData` makes of the answer.
unfoldable pub accept_image : DownloadOpts → Option Response → Option DownloadResult
unfolding strip_mime
accept_image opts none = none
accept_image opts (some resp) =
    if not (resp.status == status_ok)
    then none
    else (let ct = strip_mime resp.content_type in
        if not (has_prefix ct (codes "image/"))
        then none
        else elim (read_limited (to_ℕ opts.max_bytes) resp) [
          | none ↦ none
          | some bytes ↦
              if ltb_ℤ (pos (length bytes)) opts.min_bytes
              then none
              else some (record { bytes = bytes; mime_type = ct })
        ])

abbrev pub image_request : ⦃p : Platform⦄ → Context → Text → Text → DownloadOpts → Option Request
image_request ctx image_url ua opts =
    new_request (with_timeout ctx opts.timeout) get image_url ((codes "User-Agent", ua) ∷ []) []

module _ {W : Type 0} ⦃p : Platform⦄ where
  -- `fetchImageData`; `none` is nil.
  unfoldable pub fetch_image_data :
      Context → Client W → Text → Text → DownloadOpts → Io W (Option DownloadResult)
  fetch_image_data ctx client image_url ua opts = do
    reply ← send_built client (image_request ctx image_url ua opts)
    pure (accept_image opts reply)

-- The options with their defaults.
unfoldable pub with_defaults : DownloadOpts → DownloadOpts
with_defaults opts = record opts {
  max_bytes = if leb_ℤ opts.max_bytes (pos 0) then default_max_bytes else opts.max_bytes;
  timeout = if leb_ℤ opts.timeout (pos 0) then default_timeout else opts.timeout;
}

-- The fallback to the stealth client, where the direct attempt gave nothing.
abbrev pub try_stealth :
    {W : Type 0}
    → Option (Client W)
    → (Client W → Io W (Option DownloadResult))
    → Option DownloadResult
    → Io W (Option DownloadResult)
try_stealth stealth fetch (some r) = pure (some r)
try_stealth none fetch none = pure none
try_stealth (some client) fetch none = fetch client

module _ {W Img Hash F : Type 0} (env : Environment W Img Hash F) ⦃p : Platform⦄ where
  -- `Download`, whose error is always nil; `none` is a nil result.
  unfoldable pub download :
      Config W F → Context → Text → DownloadOpts → Io W (Option DownloadResult)
  download config ctx url options =
      let cfg = defaults env.default_client config in
      let opts = with_defaults options in
      let ua = if is_empty opts.user_agent then cfg.user_agent else opts.user_agent in
      do
        direct ← fetch_image_data ctx (client_or cfg.http_client env.default_client) url ua opts
        try_stealth cfg.stealth_client (λ c. fetch_image_data ctx c url ua opts) direct
