-- ===== src/Reverse/Degradation.antt =====
-- When a reverse search calls an image stock.
use go_imagefy.Prelude.{
  ℕ, true, Option, some, none, List, [], ◌∷◌, is_empty, ◌≡◌, ◌≢◌, inl, inr, refl, arith,
  Option-cases, Bool-cases,
}
use go_imagefy.Text.{Text, codes}
use go_imagefy.Platform.{Platform}
use go_imagefy.Http.{
  Context, Response, read_limited, status_ok, send_built, new_request, with_timeout, seconds,
}
use go_imagefy.Config.{Config, client_or}
use go_imagefy.Config.Environment.{Environment, ReverseResponse}
use go_imagefy.Reverse.{
  no_result, read_reverse, reverse_body_limit, ask_reverse, reverse_check, endpoint,
  reverse_timeout, reverse_max_results,
}

-- The service answers 200 with a body that says "stock".
abbrev pub SaysStock : (List ℕ → Option ReverseResponse) → Option Response → Type 0
SaysStock unmarshal reply =
    (resp : Response) × (reply ≡ some resp)
    × (resp.status ≡ status_ok)
    × ((body : List ℕ) × (read_limited reverse_body_limit resp ≡ some body)
        × ((r : ReverseResponse) × (unmarshal body ≡ some r) × (r.is_stock ≡ true)))

read_reverse-is_stock :
    (unmarshal : List ℕ → Option ReverseResponse) (reply : Option Response)
    → (read_reverse unmarshal reply).is_stock ≡ true
    → SaysStock unmarshal reply
unfolding read_reverse
read_reverse-is_stock unmarshal none h = cc
read_reverse-is_stock unmarshal (some resp) h =
    elim (Option-cases (read_limited reverse_body_limit resp)) [
      | inl e ↦ absurd (ground arith)
      | inr (body, e) ↦ elim (Option-cases (unmarshal body)) [
        | inl f ↦ absurd (ground arith)
        | inr (r, f) ↦ (resp, refl, ground arith, (body, e, (r, f, ground arith)))
      ]
    ]

module _ {W Img Hash F : Type 0} (env : Environment W Img Hash F) ⦃p : Platform⦄ (cfg : Config W F)
    (ctx : Context) (url : Text) (w : W) where
  -- The service's answer to the encoded request.
  abbrev pub reverse_reply : Text → Option Response
  reverse_reply payload =
      (send_built (client_or cfg.http_client env.default_client)
        (new_request (with_timeout ctx (seconds reverse_timeout)) (codes "POST") (endpoint env cfg)
          ((codes "Content-Type", codes "application/json") ∷ []) payload)
        w).0

  -- An image is called stock only if the service is configured, answers 200, and says so in a body
  -- that could be read.
  pub reverse_check-is_stock :
      (reverse_check env cfg ctx url w).0.is_stock ≡ true
      → (cfg.ox_browser_url ≢ [])
        × ((payload : Text) × (env.marshal_reverse url reverse_max_results ≡ some payload)
            × SaysStock env.unmarshal_reverse (reverse_reply payload))
  unfolding reverse_check ask_reverse
  reverse_check-is_stock h = elim (Bool-cases (is_empty cfg.ox_browser_url)) [
    | inl off ↦ cc (rw off at h)
    | inr on ↦ elim (Option-cases (env.marshal_reverse url reverse_max_results)) [
      | inl e ↦ absurd (ground arith)
      | inr (payload, e) ↦ (
        (λ n. ground arith),
        (
          payload,
          e,
          read_reverse-is_stock env.unmarshal_reverse (reverse_reply payload) (ground arith),
        ),
      )
    ]
  ]

  -- Without the service's address no request is made.
  pub reverse_check_disabled :
      cfg.ox_browser_url ≡ [] → reverse_check env cfg ctx url w ≡ (no_result, w)
  unfolding reverse_check
  reverse_check_disabled e = rw (e, reverse_check)
