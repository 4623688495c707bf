-- ===== src/Validate.antt =====
-- validate.go: `ValidateImageURL`, the HTTP probe of an image's address.
pub mod Probe
use go_imagefy.Prelude.{
  ℕ, ◌*◌, ℤ, pos, ltb_ℤ, leb, Bool, true, false, not, Option, some, none, List, [], ◌∷◌, take, ◌==◌,
  if◌then◌else◌,
}
use go_imagefy.Text.{Text, codes, has_prefix}
use go_imagefy.Platform.{Platform, to_lower}
use go_imagefy.Http.{
  Io, pure, ◌>>=◌, Context, with_timeout, Client, Response, send_built, new_request, read_limited,
  status_ok, get,
}
use go_imagefy.Config.{Config, defaults, client_or}
use go_imagefy.Config.Environment.{Environment}
use go_imagefy.Candidate.{is_logo_or_banner}
use go_imagefy.Download.{default_timeout}

abbrev pub decode_limit : ℕ
decode_limit = 256 * 1024

abbrev pub max_redirects : ℕ
max_redirects = 3

-- `validationClient`: the plain client's transport, with a timeout and at most three redirects.
unfoldable pub validation_client : {W : Type 0} → Client W → Client W
validation_client plain = record {
  transport = plain.transport;
  stops_redirect = λ via. leb max_redirects via;
  timeout = default_timeout;
}

-- What `image.DecodeConfig` sees of a body: the bytes that arrive, up to the limit. Where the body
-- breaks off the decoder has no more than these either.
abbrev pub decode_input : Response → List ℕ
decode_input resp = take decode_limit resp.arriving

-- What `ValidateImageURL` makes of the answer.
unfoldable pub passes_probe : (List ℕ → Option ℤ) → ℤ → Option Response → Bool
passes_probe decode_width min_width none = false
passes_probe decode_width min_width (some resp) =
    if not (resp.status == status_ok)
    then false
    else if not (has_prefix resp.content_type (codes "image/"))
    then false
    else elim (decode_width (decode_input resp)) [
      | none ↦ true
      | some width ↦ if ltb_ℤ width min_width then false else true
    ]

module _ {W Img Hash F : Type 0} (env : Environment W Img Hash F) ⦃p : Platform⦄ where
  -- The exchange behind the test of the address.
  unfoldable pub probe : Config W F → Context → Text → Io W Bool
  probe cfg ctx raw_url = do
    let req =
        new_request (with_timeout ctx default_timeout) get raw_url
          ((codes "User-Agent", cfg.user_agent) ∷ []) []
    reply ← send_built (validation_client (client_or cfg.http_client env.default_client)) req
    pure (passes_probe env.decode_width cfg.min_image_width reply)

  unfoldable pub validate_image_url : Config W F → Context → Text → Io W Bool
  validate_image_url config ctx raw_url =
      let cfg = defaults env.default_client config in
      if is_logo_or_banner (to_lower raw_url) then pure false else probe cfg ctx raw_url
