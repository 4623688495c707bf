-- ===== src/Regexp/Pieces.antt =====
-- `re.Split(s, -1)` and `re.ReplaceAllString(s, "")`, for a pattern that matches no empty text.
use go_imagefy.Prelude.{List, [], ◌∷◌, ◌++◌}
use go_imagefy.Text.{Text}
use go_imagefy.Regexp.{Re, Place, start_of, between, Match, find_all}

-- The texts in front of, between and behind the matches.
abbrev pub pieces_from : Place → List Match → List Text
pieces_from p [] = p.ahead ∷ []
pieces_from p (m ∷ ms) = between p m.from ∷ pieces_from m.to ms

unfoldable pub split : Re → Text → List Text
split re s = pieces_from (start_of s) (find_all re s)

abbrev pub concat : List Text → Text
concat [] = []
concat (s ∷ ss) = s ++ concat ss

unfoldable pub remove_all : Re → Text → Text
unfolding split
remove_all re s = concat (split re s)
