-- ===== src/ImageUrl.antt =====
-- provider_content.go: what is read off the address of an image or a page.
pub mod Numbers
use go_imagefy.Prelude.{
  ℕ, ◌+◌, ◌-◌, ◌*◌, ◌%◌, ◌^◌, Bool, false, not, ◌&&◌, ◌||◌, leb, ltb, some, none, List, [], ◌∷◌,
  ◌++◌, length, is_empty, if◌then◌else◌, any,
}
use go_imagefy.Text.{Text, codes, text_eq, contains, join}
use go_imagefy.Platform.{Platform, to_lower, parse_url}
use go_imagefy.Paths.{path_base, path_ext, trim_suffix, split_at}
use go_imagefy.Regexp.{Re, group, at_end, is_match}
use go_imagefy.Regexp.Syntax.{exactly, plus, is_digit, ◌>◌}
use go_imagefy.Regexp.Pieces.{split, remove_all}

unfoldable pub content_skip_patterns : List Text
content_skip_patterns =
    codes "logo"
    ∷ codes "icon"
    ∷ codes "avatar"
    ∷ codes "sprite"
    ∷ codes "favicon"
    ∷ codes "placeholder"
    ∷ codes "stub"
    ∷ codes "banner"
    ∷ []

-- `contentSizeRe`.
unfoldable pub content_size_re : Re
content_size_re =
    exactly (codes "-")
    > group 1 (plus is_digit)
    > exactly (codes "x")
    > group 2 (plus is_digit)
    > at_end

abbrev pub min_content_dimension : ℕ
min_content_dimension = 200

-- `int` of 64 bits, as the natural number with the same bits; those from 2 ^ 63 on are negative.
abbrev pub int_bits : ℕ
int_bits = 64

-- `parseIntFast`, with the number so far.
unfoldable pub parse_int_from : ℕ → Text → ℕ
parse_int_from n [] = n
parse_int_from n (c ∷ s) =
    if not (is_digit c) then 0 else parse_int_from ((n * 10 + (c - b'0')) % 2 ^ int_bits) s

unfoldable pub parse_int_fast : Text → ℕ
unfolding parse_int_from
parse_int_fast s = parse_int_from 0 s

-- `n > 0 && n < minContentDimension`, of a signed number.
unfoldable pub is_small : ℕ → Bool
is_small n =
    (ltb 0 n && ltb n (2 ^ (int_bits - 1)))
    && (leb (2 ^ (int_bits - 1)) n || ltb n min_content_dimension)

-- `normalizeImgURL`.
unfoldable pub normalize_img_url : Text → Text
unfolding path_ext trim_suffix path_base content_size_re remove_all
normalize_img_url img_url =
    let ext = path_ext img_url in
    let stem = trim_suffix img_url ext in
    if is_match content_size_re (path_base stem)
    then remove_all content_size_re stem ++ ext
    else img_url

-- `isContentSkip`.
unfoldable pub is_content_skip : Text → Bool
unfolding content_skip_patterns contains
is_content_skip low = any (contains low) content_skip_patterns

-- `[^a-z0-9]+`.
abbrev pub no_slug_re : Re
no_slug_re = plus (λ c. not (leb b'a' c && leb c b'z' || is_digit c))

-- The last two labels of a host, or all that there are.
abbrev pub last_two : List Text → List Text
last_two [] = []
last_two (l ∷ ls) = let rest = last_two ls in if leb (length (l ∷ ls)) 2 then l ∷ ls else rest

module _ ⦃p : Platform⦄ where
  -- `registrableDomain`.
  unfoldable pub registrable_domain : Text → Text
  unfolding split_at join
  registrable_domain raw_url = elim (parse_url raw_url) [
    | none ↦ []
    | some u ↦
        let parts = split_at b'.' u.hostname in
        if is_empty u.host
        then []
        else if ltb (length parts) 2
        then u.hostname
        else join (last_two parts) (codes ".")
  ]

  -- `add` of `slugTokensFrom`, on each text of a list; the tokens are those that were seen.
  unfoldable pub add_tokens : List Text → List Text → List Text
  unfolding text_eq
  add_tokens tokens [] = tokens
  add_tokens tokens (s ∷ ss) =
      let low = to_lower s in
      let kept = leb 4 (length low) && not (any (text_eq low) tokens) in
      add_tokens (if kept then tokens ++ low ∷ [] else tokens) ss

  -- `slugTokensFrom`.
  unfoldable pub slug_tokens_from : Text → Text → List Text
  unfolding add_tokens split path_base
  slug_tokens_from page_url query =
      let of_path : List Text = elim (parse_url page_url) [
        | none ↦ []
        | some u ↦ add_tokens [] (split no_slug_re (to_lower (path_base u.path)))
      ] in
      add_tokens of_path (split no_slug_re (to_lower query))

  -- `isSlugMatch`.
  unfoldable pub is_slug_match : Text → List Text → Bool
  unfolding path_base contains
  is_slug_match img_url tokens =
      if is_empty tokens then false else any (contains (to_lower (path_base img_url))) tokens
