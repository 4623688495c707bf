-- ===== src/Validate/Probe.antt =====
-- When the probe of an address passes.
use go_imagefy.Prelude.{
  ℕ, ℤ, pos, ltb_ℤ, true, false, Option, some, none, List, [], ◌∷◌, ◌≡◌, ◌↔◌, inl, inr, refl, subst,
  arith, Option-cases, Bool-cases,
}
use go_imagefy.Text.{Text, codes, has_prefix}
use go_imagefy.Platform.{Platform, to_lower}
use go_imagefy.Http.{
  Context, Client, Response, status_ok, get, send_built, new_request, with_timeout,
}
use go_imagefy.Config.{Config, defaults, client_or}
use go_imagefy.Config.Environment.{Environment}
use go_imagefy.Candidate.{is_logo_or_banner}
use go_imagefy.Download.{default_timeout}
use go_imagefy.Validate.{decode_input, validation_client, passes_probe, probe, validate_image_url}

-- An image is answered, and its width is wide enough or cannot be told.
abbrev pub IsWideEnough : (List ℕ → Option ℤ) → ℤ → Response → Type 0
IsWideEnough decode_width min_width resp =
    (resp.status ≡ status_ok)
    × (has_prefix resp.content_type (codes "image/") ≡ true)
    × ((width : ℤ) → decode_width (decode_input resp) ≡ some width → ltb_ℤ width min_width ≡ false)

wide_passes :
    (dw : List ℕ → Option ℤ) (mw : ℤ) (resp : Response)
    → IsWideEnough dw mw resp
    → passes_probe dw mw (some resp) ≡ true
unfolding passes_probe
wide_passes dw mw resp (ok, image, wide) = elim (Option-cases (dw (decode_input resp))) [
  | inl e ↦ ground arith
  | inr (width, e) ↦ ground (arith, wide width e)
]

passes_probe_iff :
    (decode_width : List ℕ → Option ℤ) (min_width : ℤ) (reply : Option Response)
    → (passes_probe decode_width min_width reply ≡ true)
      ↔ ((resp : Response) × (reply ≡ some resp) × IsWideEnough decode_width min_width resp)
unfolding passes_probe
passes_probe_iff dw mw none = ((λ h. cc), λ h. cc (h.1))
passes_probe_iff dw mw (some resp) = (
  (λ h. (resp, refl, (ground arith, ground arith, λ width e. ground arith))),
  λ h.
      let same : h.0 ≡ resp = cc (h.1) in
      wide_passes dw mw resp (subst (IsWideEnough dw mw) same h.2),
)

module _ {W Img Hash F : Type 0} (env : Environment W Img Hash F) ⦃p : Platform⦄
    (config : Config W F) (ctx : Context) (url : Text) (w : W) where
  -- The answer to the request of the probe.
  abbrev pub probe_reply : Option Response
  probe_reply =
      let cfg = defaults env.default_client config in
      (send_built (validation_client (client_or cfg.http_client env.default_client))
        (new_request (with_timeout ctx default_timeout) get url
          ((codes "User-Agent", cfg.user_agent) ∷ []) [])
        w).0

  -- An address is valid exactly when it names no logo or banner, and the server answers 200 with an
  -- image type and with an image that is not known to be narrower than the minimum.
  pub validate_image_url_iff : ((validate_image_url env config ctx url w).0 ≡ true) ↔ (
      (is_logo_or_banner (to_lower url) ≡ false)
      × ((resp : Response) × (probe_reply ≡ some resp)
          × IsWideEnough env.decode_width
              (defaults env.default_client config).min_image_width
              resp))
  unfolding validate_image_url probe
  validate_image_url_iff =
      let iff =
        passes_probe_iff env.decode_width (defaults env.default_client config).min_image_width
          probe_reply in
      elim (Bool-cases (is_logo_or_banner (to_lower url))) [
        | inl logo ↦ rw logo ((λ h. cc), λ h. cc (h.0))
        | inr plain ↦ rw plain ((λ h. (refl, iff.0 h)), λ h. iff.1 h.1)
      ]

  -- A logo or banner costs no request: the world is not touched.
  pub validate_image_url_logo :
      is_logo_or_banner (to_lower url) ≡ true → validate_image_url env config ctx url w ≡ (false, w)
  unfolding validate_image_url
  validate_image_url_logo h = rw h

-- The minimum that is compared with is positive, whatever was configured.
pub defaults-min_image_width :
    {W F : Type 0} (client : Client W) (config : Config W F)
    → ltb_ℤ (pos 0) (defaults client config).min_image_width ≡ true
unfolding defaults
defaults-min_image_width client config = ground arith

-- Filling the defaults a second time changes nothing.
pub defaults_idem :
    {W F : Type 0} (client : Client W) (config : Config W F)
    → defaults client (defaults client config) ≡ defaults client config
unfolding defaults
defaults_idem client config = ground arith
