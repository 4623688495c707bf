-- ===== src/Reverse.antt =====
-- reverse.go: `ReverseCheck`, which asks the ox-browser service whether an image is a stock photo.
pub mod Degradation
use go_imagefy.Prelude.{
  ℕ, ◌*◌, Bool, true, false, not, Option, some, none, List, [], ◌∷◌, ◌++◌, is_empty, ◌==◌,
  if◌then◌else◌,
}
use go_imagefy.Text.{Text, codes, trim_right, in_cutset}
use go_imagefy.Platform.{Platform}
use go_imagefy.Http.{
  Io, pure, ◌>>=◌, seconds, Context, with_timeout, Response, send_built, new_request, read_limited,
  status_ok,
}
use go_imagefy.Config.{Config, client_or}
use go_imagefy.Config.Environment.{Environment, ReverseResponse}

abbrev pub reverse_max_results : ℕ
reverse_max_results = 10

abbrev pub reverse_body_limit : ℕ
reverse_body_limit = 512 * 1024

abbrev pub reverse_timeout : ℕ
reverse_timeout = 10

pub record ReverseResult : Type 0 where
  pub is_stock : Bool
  pub stock_domains : List Text

abbrev pub no_result : ReverseResult
no_result = record { is_stock = false; stock_domains = [] }

-- What `ReverseCheck` makes of the answer.
unfoldable pub read_reverse : (List ℕ → Option ReverseResponse) → Option Response → ReverseResult
read_reverse unmarshal none = no_result
read_reverse unmarshal (some resp) =
    if not (resp.status == status_ok)
    then no_result
    else elim (read_limited reverse_body_limit resp) [
      | none ↦ no_result
      | some body ↦ elim (unmarshal body) [
        | none ↦ no_result
        | some r ↦ record { is_stock = r.is_stock; stock_domains = r.stock_domains }
      ]
    ]

module _ {W Img Hash F : Type 0} (env : Environment W Img Hash F) ⦃p : Platform⦄ where
  -- `strings.TrimRight(cfg.OxBrowserURL, "/") + "/images/reverse"`.
  abbrev pub endpoint : Config W F → Text
  endpoint cfg = trim_right (in_cutset (codes "/")) cfg.ox_browser_url ++ codes "/images/reverse"

  -- The exchange, behind the test that the service is configured and the encoding of the request.
  unfoldable pub ask_reverse : Config W F → Context → Text → Io W ReverseResult
  ask_reverse cfg ctx payload = do
    let req =
        new_request (with_timeout ctx (seconds reverse_timeout)) (codes "POST") (endpoint cfg)
          ((codes "Content-Type", codes "application/json") ∷ []) payload
    reply ← send_built (client_or cfg.http_client env.default_client) req
    pure (read_reverse env.unmarshal_reverse reply)

  unfoldable pub reverse_check : Config W F → Context → Text → Io W ReverseResult
  reverse_check cfg ctx image_url =
      if is_empty cfg.ox_browser_url
      then pure no_result
      else elim (env.marshal_reverse image_url reverse_max_results) [
        | none ↦ pure no_result
        | some payload ↦ ask_reverse cfg ctx payload
      ]
