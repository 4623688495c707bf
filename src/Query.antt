-- ===== src/Query.antt =====
-- query.go: the words of a title that make a query for images.
pub mod Words
use go_imagefy.Prelude.{
  ℕ, ltb, ◌==◌, Bool, true, false, not, ◌&&◌, Option, some, none, List, [], ◌∷◌, ◌++◌, any,
  is_empty, length, take, if◌then◌else◌,
}
use go_imagefy.Text.{Text, codes, text_eq, contains, index, trim, in_cutset, fields, join}
use go_imagefy.Platform.{Platform, to_lower}

abbrev pub min_word_runes : ℕ
min_word_runes = 3

abbrev pub max_query_words : ℕ
max_query_words = 5

unfoldable pub ru_stop_words : List Text
ru_stop_words =
    codes "в"
    ∷ codes "на"
    ∷ codes "и"
    ∷ codes "из"
    ∷ codes "для"
    ∷ codes "что"
    ∷ codes "как"
    ∷ codes "это"
    ∷ codes "по"
    ∷ codes "от"
    ∷ codes "с"
    ∷ codes "о"
    ∷ codes "к"
    ∷ codes "не"
    ∷ codes "за"
    ∷ codes "у"
    ∷ codes "но"
    ∷ codes "же"
    ∷ codes "все"
    ∷ codes "так"
    ∷ codes "его"
    ∷ codes "её"
    ∷ codes "их"
    ∷ codes "мы"
    ∷ codes "вы"
    ∷ codes "он"
    ∷ codes "она"
    ∷ codes "они"
    ∷ codes "был"
    ∷ codes "была"
    ∷ codes "будет"
    ∷ codes "уже"
    ∷ codes "ещё"
    ∷ codes "еще"
    ∷ codes "или"
    ∷ codes "ни"
    ∷ codes "бы"
    ∷ codes "до"
    ∷ codes "под"
    ∷ codes "при"
    ∷ codes "без"
    ∷ codes "над"
    ∷ codes "через"
    ∷ []

unfoldable pub en_stop_words : List Text
en_stop_words =
    codes "the"
    ∷ codes "and"
    ∷ codes "for"
    ∷ codes "with"
    ∷ codes "best"
    ∷ codes "top"
    ∷ codes "good"
    ∷ codes "your"
    ∷ codes "you"
    ∷ codes "this"
    ∷ codes "that"
    ∷ codes "these"
    ∷ codes "those"
    ∷ codes "from"
    ∷ codes "into"
    ∷ codes "about"
    ∷ codes "over"
    ∷ codes "under"
    ∷ codes "some"
    ∷ codes "any"
    ∷ codes "all"
    ∷ codes "more"
    ∷ codes "most"
    ∷ codes "very"
    ∷ codes "really"
    ∷ codes "just"
    ∷ codes "only"
    ∷ codes "also"
    ∷ []

-- The runes that are cut off a word.
abbrev pub cut_runes : Text
cut_runes = codes ".,;:!?\"'()[]{}«»—–-"

-- A language in small letters, without its region: "en-us" becomes "en".
unfoldable pub primary_language : Text → Text
primary_language low = elim (index low (codes "-")) [
  | none ↦ low
  | some idx ↦ if idx == 0 then low else take idx low
]

module _ ⦃p : Platform⦄ where
  unfoldable pub stop_words : Text → List Text
  unfolding primary_language
  stop_words lang =
      if text_eq (primary_language (to_lower lang)) (codes "en")
      then en_stop_words
      else ru_stop_words

  -- What the loop asks of a word that is cut.
  unfoldable pub is_meaningful : List Text → Text → Bool
  is_meaningful stops w =
      not (is_empty w)
      && (not (any (text_eq (to_lower w)) stops) && not (ltb (length w) min_word_runes))

  -- The loop over the words of the title.
  unfoldable pub meaningful : List Text → List Text → List Text
  meaningful stops [] = []
  meaningful stops (w ∷ ws) =
      let rest = meaningful stops ws in
      let word = trim (in_cutset cut_runes) w in
      if is_meaningful stops word then word ∷ rest else rest

  -- The query's words, at most five.
  unfoldable pub query_words : Text → Text → List Text
  unfolding meaningful
  query_words title lang = take max_query_words (meaningful (stop_words lang) (fields title))

  -- The city, where the query does not have it.
  unfoldable pub with_city : Text → Text → Text
  with_city query city =
      if not (is_empty city) && not (contains (to_lower query) (to_lower city))
      then query ++ (codes " " ++ city)
      else query

  -- `BuildImageQueryLang`.
  unfoldable pub build_image_query_lang : Text → Text → Text → Text
  unfolding query_words with_city
  build_image_query_lang title city lang =
      with_city (join (query_words title lang) (codes " ")) city

  -- `BuildImageQuery`.
  unfoldable pub build_image_query : Text → Text → Text
  unfolding build_image_query_lang
  build_image_query title city = build_image_query_lang title city (codes "ru")
