-- ===== src/Base64/RoundTrip.antt =====
-- The decoder of Base64 text, against the encoder.
use go_imagefy.Prelude.{
  ℕ, ◌+◌, ◌-◌, ◌*◌, ◌/◌, ◌%◌, ◌<◌, false, List, [], ◌∷◌, leb, ◌==◌, if◌then◌else◌, ◌≡◌, refl, arith,
  All,
}
use go_imagefy.Text.{Text}
use go_imagefy.Base64.{letter, padding, encode_base64}

-- The six-bit group of a letter.
pub group : ℕ → ℕ
group c =
    if leb b'a' c
    then c - b'a' + 26
    else if leb b'A' c
    then c - b'A'
    else if leb b'0' c
    then c - b'0' + 52
    else if c == b'+'
    then 62
    else 63

group-letter : (n : ℕ) → n < 64 → group (letter n) ≡ n
unfolding group letter
group-letter n h = ground arith

letter-ne-padding : (n : ℕ) → n < 64 → (letter n == padding) ≡ false
unfolding letter
letter-ne-padding n h = ground arith

-- The decoder of RFC 4648, on text in groups of four letters.
pub decode_base64 : Text → List ℕ
decode_base64 (p ∷ q ∷ r ∷ s ∷ rest) =
    let more = decode_base64 rest in
    if r == padding
    then (group p * 4 + group q / 16) ∷ []
    else if s == padding
    then (group p * 4 + group q / 16) ∷ (group q % 16 * 16 + group r / 4) ∷ []
    else (group p * 4 + group q / 16)
      ∷ (group q % 16 * 16 + group r / 4)
      ∷ (group r % 4 * 64 + group s)
      ∷ more
decode_base64 _ = []

abbrev pub IsByte : ℕ → Type 0
IsByte b = b < 256

module _ (a b c : ℕ) (ha : IsByte a) (hb : IsByte b) (hc : IsByte c) where
  one_byte : decode_base64 (encode_base64 (a ∷ [])) ≡ a ∷ []
  unfolding decode_base64 encode_base64
  one_byte = ground (arith, group-letter (a / 4), group-letter (a % 4 * 16))

  two_bytes : decode_base64 (encode_base64 (a ∷ b ∷ [])) ≡ a ∷ b ∷ []
  unfolding decode_base64 encode_base64
  two_bytes = ground (
    arith,
    group-letter (a / 4),
    group-letter (a % 4 * 16 + b / 16),
    group-letter (b % 16 * 4),
    letter-ne-padding (b % 16 * 4),
  )

  three_bytes :
      (rest : List ℕ)
      → decode_base64 (encode_base64 (a ∷ b ∷ c ∷ rest))
        ≡ a ∷ b ∷ c ∷ decode_base64 (encode_base64 rest)
  unfolding decode_base64 encode_base64
  three_bytes rest =
      rw
        (
          letter-ne-padding (b % 16 * 4 + c / 64) (omega arith),
          letter-ne-padding (c % 64) (omega arith),
          group-letter (a / 4) (omega arith),
          group-letter (a % 4 * 16 + b / 16) (omega arith),
          group-letter (b % 16 * 4 + c / 64) (omega arith),
          group-letter (c % 64) (omega arith),
        )
        (ground arith)

-- Every sequence of bytes is read back from its encoding, whatever padding that needs.
pub decode_base64-encode_base64 :
    (bytes : List ℕ) → All IsByte bytes → decode_base64 (encode_base64 bytes) ≡ bytes
decode_base64-encode_base64 [] h = unfold decode_base64 encode_base64 in refl
decode_base64-encode_base64 (a ∷ []) h = one_byte a 0 0 h.0 (omega arith) (omega arith)
decode_base64-encode_base64 (a ∷ b ∷ []) h = two_bytes a b 0 h.0 h.1.0 (omega arith)
decode_base64-encode_base64 (a ∷ b ∷ c ∷ rest) h =
    rw (three_bytes a b c h.0 h.1.0 h.1.1.0, decode_base64-encode_base64 rest h.1.1.1)
