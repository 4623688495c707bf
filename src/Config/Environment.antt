-- ===== src/Config/Environment.antt =====
-- The code that the pipeline only calls: clients, image decoders, hashes, floats, metadata tags and
-- JSON. Each is a parameter.
use go_imagefy.Prelude.{ℕ, ℤ, Bool, Option, List}
use go_imagefy.Text.{Text}
use go_imagefy.Http.{Client}
use go_imagefy.Classes.{Floats}
use go_imagefy.Dedup.{Hashing}
use go_imagefy.Metadata.Tags.{Decoded}

-- `reverseResponse` of reverse.go, without the matches, which the program does not read.
pub record ReverseResponse : Type 0 where
  pub is_stock : Bool
  pub stock_domains : List Text

pub record Environment (W Img Hash F : Type 0) : Type 0 where
  -- `http.DefaultClient`.
  pub default_client : Client W
  -- `image.DecodeConfig`: the width; `none` is an error.
  pub decode_width : List ℕ → Option ℤ
  -- `image.Decode`; `none` is an error.
  pub decode_image : List ℕ → Option Img
  pub hashing : Hashing Img Hash
  pub floats : Floats F
  -- The tags that `imagemeta.Decode` meets.
  pub decode_tags : List ℕ → Decoded
  -- `json.Marshal` of a reverse request, with its address and the number of results.
  pub marshal_reverse : Text → ℕ → Option Text
  -- `json.Unmarshal` into a reverse response.
  pub unmarshal_reverse : List ℕ → Option ReverseResponse
