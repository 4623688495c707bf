-- ===== src/Paths.antt =====
-- Package `path` and `strings.TrimSuffix`, `strings.Split`, as far as provider_content.go calls them.
use go_imagefy.Prelude.{
  ℕ, ◌-◌, Bool, not, ◌&&◌, ◌==◌, leb, List, [], ◌∷◌, length, take, is_empty, if◌then◌else◌, any,
}
use go_imagefy.Text.{Text, codes, text_eq, drop, trim_right}

abbrev is_slash : ℕ → Bool
is_slash c = c == b'/'

-- What is behind the last slash.
abbrev behind_slash : Text → Text
behind_slash [] = []
behind_slash (c ∷ s) =
    let rest = behind_slash s in if any is_slash s then rest else if is_slash c then s else c ∷ s

-- `path.Base`.
unfoldable pub path_base : Text → Text
path_base s =
    let stripped = trim_right is_slash s in
    if is_empty s then codes "." else if is_empty stripped then codes "/" else behind_slash stripped

-- `path.Ext`: from the last dot on, if there is no slash behind it.
unfoldable pub path_ext : Text → Text
path_ext [] = []
path_ext (c ∷ s) =
    let rest = path_ext s in
    if not (is_empty rest) then rest else if c == b'.' && not (any is_slash s) then c ∷ s else []

-- `strings.HasSuffix`.
abbrev has_suffix : Text → Text → Bool
has_suffix s suffix =
    leb (length suffix) (length s) && text_eq (drop (length s - length suffix) s) suffix

-- `strings.TrimSuffix`.
unfoldable pub trim_suffix : Text → Text → Text
trim_suffix s suffix = if has_suffix s suffix then take (length s - length suffix) s else s

-- `strings.Split(s, sep)` for a separator of a single rune.
unfoldable pub split_at : ℕ → Text → List Text
split_at sep [] = [] ∷ []
split_at sep (c ∷ s) = elim (split_at sep s) [
  | [] ↦ []
  | part ∷ parts ↦ if c == sep then [] ∷ part ∷ parts else (c ∷ part) ∷ parts
]
