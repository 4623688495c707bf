-- ===== src/Tests/Images.antt =====
-- Downloads, probes, hashes and encodings at concrete inputs.
use go_imagefy.Prelude.{ℕ, pos, true, false, some, [], ◌∷◌, ◌≡◌, ◌≢◌, ◌↔◌, refl, arith}
use go_imagefy.Text.{Text, codes, has_prefix, index}
use go_imagefy.Platform.{to_lower}
use go_imagefy.Http.{Response, send_built, new_request, read_limited}
use go_imagefy.Config.{Config, defaults}
use go_imagefy.Candidate.{is_logo_or_banner}
use go_imagefy.Base64.{encode_base64}
use go_imagefy.Base64.RoundTrip.{decode_base64, decode_base64-encode_base64}
use go_imagefy.Download.{
  DownloadOpts, DownloadResult, with_defaults, fetch_image_data, accept_image, download,
}
use go_imagefy.Download.Fallback.{IsImage, download-IsImage}
use go_imagefy.Validate.{validate_image_url}
use go_imagefy.Validate.Probe.{IsWideEnough, probe_reply, validate_image_url_iff}
use go_imagefy.Reverse.{reverse_check, ask_reverse, read_reverse, reverse_max_results}
use go_imagefy.Reverse.Degradation.{SaysStock, reverse_reply, reverse_check-is_stock}
use go_imagefy.Tests.World.{ascii, env, plain}

abbrev url : Text
url = codes "example.org/b.jpg"

abbrev opts : DownloadOpts
opts = record { max_bytes = pos 0; min_bytes = pos 2; timeout = pos 0; user_agent = [] }

abbrev downloaded : DownloadResult
downloaded = record { bytes = 1 ∷ 2 ∷ 3 ∷ []; mime_type = codes "image/png" }

server_download : (download env plain [] url opts 0).0 ≡ some downloaded
unfolding download fetch_image_data accept_image send_built new_request defaults has_prefix index
    read_limited with_defaults
server_download = refl

download-IsImage_example : IsImage (with_defaults opts) downloaded
download-IsImage_example = download-IsImage env plain [] url opts 0 downloaded server_download

validate_image_url_iff_example : ((validate_image_url env plain [] url 0).0 ≡ true) ↔ (
    (is_logo_or_banner (to_lower url) ≡ false)
    × ((resp : Response) × (probe_reply env plain [] url 0 ≡ some resp)
        × IsWideEnough env.decode_width (defaults env.default_client plain).min_image_width resp))
validate_image_url_iff_example = validate_image_url_iff env plain [] url 0

decode_base64-encode_base64_example :
    decode_base64 (encode_base64 (77 ∷ 97 ∷ 255 ∷ 0 ∷ [])) ≡ 77 ∷ 97 ∷ 255 ∷ 0 ∷ []
decode_base64-encode_base64_example =
    decode_base64-encode_base64 (77 ∷ 97 ∷ 255 ∷ 0 ∷ []) (omega arith)

abbrev reversing : Config ℕ ℕ
reversing = record plain { ox_browser_url = codes "ox" }

called_stock : (reverse_check env reversing [] url 0).0.is_stock ≡ true
unfolding reverse_check ask_reverse read_reverse send_built new_request read_limited
called_stock = refl

reverse_check-is_stock_example :
    (reversing.ox_browser_url ≢ [])
    × ((payload : Text) × (env.marshal_reverse url reverse_max_results ≡ some payload)
        × SaysStock env.unmarshal_reverse (reverse_reply env reversing [] url 0 payload))
reverse_check-is_stock_example = reverse_check-is_stock env reversing [] url 0 called_stock
