-- ===== src/Platform.antt =====
-- What the program takes from outside its own code, as far as it is a pure function: the case
-- tables of package `unicode`, `url.Parse` of package `net/url`, `html.UnescapeString` and UTF-8.
use go_imagefy.Prelude.{List, ℕ, ◌+◌, ◌-◌, Option, ◌&&◌, ltb, leb, if◌then◌else◌, map}
use go_imagefy.Text.{Text}

-- The fields of `url.URL` that the program reads.
pub record Url : Type 0 where
  pub host : Text
  -- `u.Hostname()`: the host without its port.
  pub hostname : Text
  pub path : Text

pub record Platform : Type 0 where
  -- `unicode.To(LowerCase, r)` and `unicode.To(UpperCase, r)` for runes beyond ASCII.
  pub lower_table : ℕ → ℕ
  pub upper_table : ℕ → ℕ
  -- `url.Parse`; `none` is an error.
  pub parse_url : Text → Option Url
  -- `html.UnescapeString`.
  pub unescape_html : Text → Text
  -- `string(body)`: the runes that package `regexp` and `range` see in bytes.
  pub text_of_bytes : List ℕ → Text

module _ ⦃p : Platform⦄ where
  -- `unicode.ToLower`.
  unfoldable pub lower : ℕ → ℕ
  lower c = if ltb c 128 then (if leb b'A' c && leb c b'Z' then c + 32 else c) else p.lower_table c

  -- `unicode.ToUpper`.
  unfoldable pub upper : ℕ → ℕ
  upper c = if ltb c 128 then (if leb b'a' c && leb c b'z' then c - 32 else c) else p.upper_table c

  -- `strings.ToLower` and `strings.ToUpper`.
  unfoldable pub to_lower : Text → Text
  unfolding lower
  to_lower = map lower

  unfoldable pub to_upper : Text → Text
  unfolding upper
  to_upper = map upper

  -- `url.Parse`.
  abbrev pub parse_url : Text → Option Url
  parse_url = p.parse_url

  abbrev pub unescape_html : Text → Text
  unescape_html = p.unescape_html

  abbrev pub text_of_bytes : List ℕ → Text
  text_of_bytes = p.text_of_bytes
