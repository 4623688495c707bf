-- ===== src/Download/Fallback.antt =====
-- What a download gives.
use go_imagefy.Prelude.{
  ℕ, ◌≤◌, pos, to_ℕ, ltb_ℤ, true, false, Option, some, none, List, is_empty, length, length-take-le,
  if◌then◌else◌, ◌≡◌, inl, inr, arith, Option-cases,
}
use go_imagefy.Text.{Text, codes, has_prefix}
use go_imagefy.Platform.{Platform}
use go_imagefy.Http.{Io, Context, Client, Response, read_limited}
use go_imagefy.Config.{Config, defaults, client_or}
use go_imagefy.Config.Environment.{Environment}
use go_imagefy.Download.{
  DownloadOpts, DownloadResult, accept_image, fetch_image_data, with_defaults, try_stealth,
  download,
}

read_limited-le :
    (limit : ℕ) (r : Response) (bytes : List ℕ)
    → read_limited limit r ≡ some bytes
    → length bytes ≤ limit
unfolding read_limited
read_limited-le limit r bytes h = ground (arith, length-take-le limit r.arriving)

-- An image that is accepted from an answer.
pub record IsImage (opts : DownloadOpts) (r : DownloadResult) : Type 0 where
  pub mime : has_prefix r.mime_type (codes "image/") ≡ true
  pub bounded : length r.bytes ≤ to_ℕ opts.max_bytes
  pub long_enough : ltb_ℤ (pos (length r.bytes)) opts.min_bytes ≡ false

accept_image-IsImage :
    (opts : DownloadOpts) (reply : Option Response) (r : DownloadResult)
    → accept_image opts reply ≡ some r
    → IsImage opts r
unfolding accept_image
accept_image-IsImage opts none r h = cc
accept_image-IsImage opts (some resp) r h =
    elim (Option-cases (read_limited (to_ℕ opts.max_bytes) resp)) [
      | inl e ↦ absurd (ground arith)
      | inr (bytes, e) ↦
          let le = read_limited-le (to_ℕ opts.max_bytes) resp bytes e in
          record { mime = ground arith; bounded = ground arith; long_enough = ground arith }
    ]

module _ {W : Type 0} (fetch : Client W → Io W (Option DownloadResult)) (w : W) where
  try_stealth-keeps :
      (P : DownloadResult → Type 0) (s : Option (Client W)) (d : Option DownloadResult)
      → ((r : DownloadResult) → d ≡ some r → P r)
      → ((c : Client W) (r : DownloadResult) → (fetch c w).0 ≡ some r → P r)
      → (r : DownloadResult) → (try_stealth s fetch d w).0 ≡ some r
      → P r
  try_stealth-keeps P s (some r') direct other r h = direct r h
  try_stealth-keeps P none none direct other r h = cc
  try_stealth-keeps P (some c) none direct other r h = other c r h

module _ {W Img Hash F : Type 0} (env : Environment W Img Hash F) ⦃p : Platform⦄
    (config : Config W F) (ctx : Context) (url : Text) (options : DownloadOpts) where
  -- The arguments of both attempts.
  abbrev pub attempt : Client W → Io W (Option DownloadResult)
  attempt client =
      let cfg = defaults env.default_client config in
      let opts = with_defaults options in
      fetch_image_data ctx client url
        (if is_empty opts.user_agent then cfg.user_agent else opts.user_agent) opts

  abbrev pub direct_client : Client W
  direct_client = client_or config.http_client env.default_client

  -- What a download gives is an image by its type, has no more bytes than the limit, which is the
  -- default one if none is set, and no fewer than the minimum.
  pub download-IsImage :
      (w : W) (r : DownloadResult)
      → (download env config ctx url options w).0 ≡ some r
      → IsImage (with_defaults options) r
  unfolding download fetch_image_data defaults
  download-IsImage w r h =
      let opts = with_defaults options in
      try_stealth-keeps attempt (attempt direct_client w).1 (IsImage opts) config.stealth_client
        (attempt direct_client w).0 (λ r e. accept_image-IsImage opts _ r e)
        (λ c r e. accept_image-IsImage opts _ r e) r h
