-- ===== src/Base64.antt =====
-- helpers.go: `EncodeBase64` (the standard encoding with padding) and `EncodeDataURL`.
pub mod RoundTrip
use go_imagefy.Prelude.{
  ℕ, ◌+◌, ◌-◌, ◌*◌, ◌/◌, ◌%◌, Bool, List, [], ◌∷◌, ◌++◌, ltb, ◌==◌, if◌then◌else◌,
}
use go_imagefy.Text.{Text, codes}

-- The letter of a six-bit group.
unfoldable pub letter : ℕ → ℕ
letter n =
    if ltb n 26
    then b'A' + n
    else if ltb n 52
    then b'a' + (n - 26)
    else if ltb n 62
    then b'0' + (n - 52)
    else if n == 62
    then b'+'
    else b'/'

abbrev pub padding : ℕ
padding = b'='

-- `base64.StdEncoding.EncodeToString`: three bytes make four letters, the rest is padded.
unfoldable pub encode_base64 : List ℕ → Text
encode_base64 [] = []
encode_base64 (a ∷ []) = letter (a / 4) ∷ letter (a % 4 * 16) ∷ padding ∷ padding ∷ []
encode_base64 (a ∷ b ∷ []) =
    letter (a / 4) ∷ letter (a % 4 * 16 + b / 16) ∷ letter (b % 16 * 4) ∷ padding ∷ []
encode_base64 (a ∷ b ∷ c ∷ rest) =
    letter (a / 4)
    ∷ letter (a % 4 * 16 + b / 16)
    ∷ letter (b % 16 * 4 + c / 64)
    ∷ letter (c % 64)
    ∷ encode_base64 rest

-- `EncodeDataURL`.
unfoldable pub encode_data_url : List ℕ → Text → Text
encode_data_url bytes mime_type =
    codes "data:" ++ (mime_type ++ (codes ";base64," ++ encode_base64 bytes))
