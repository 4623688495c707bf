-- ===== src/Query/Words.antt =====
-- What a query is made of.
use go_imagefy.Prelude.{
  ◌≤◌, ◌<◌, true, false, List, [], ◌∷◌, ◌++◌, length, take, any, append_assoc, append-nil, ◌≡◌, ◌≢◌,
  ◌↔◌, ◌⊎◌, refl, sym, ap, ◌∙◌, subst, arith, Any, Bool-cases, inl, inr,
}
use go_imagefy.Text.{Text, codes, text_eq, contains, join, fields, trim, in_cutset}
use go_imagefy.Text.Search.{text_eq_iff, contains_iff, Occurs}
use go_imagefy.Platform.{Platform, lower, to_lower}
use go_imagefy.Query.{
  cut_runes, is_meaningful, meaningful, primary_language, en_stop_words, ru_stop_words, stop_words,
  query_words, with_city, build_image_query_lang,
}

-- A word of the title, without the runes that are cut off its two ends.
abbrev pub trimmed : Text → Text
trimmed = trim (in_cutset cut_runes)

module _ ⦃p : Platform⦄ where
  -- The word in small letters is a stop word.
  abbrev pub IsStopWord : List Text → Text → Type 0
  IsStopWord stops word = Any (λ s. s ≡ to_lower word) stops

  -- Of the words of a title, trimmed, those are kept in order that have three runes or more and are
  -- no stop words, and no others.
  pub data Kept (stops : List Text) : List Text → List Text → Type 0 where
    done : Kept stops [] []
    keep :
        {w : Text} {ws kept : List Text}
        → 3 ≤ length (trimmed w)
        → ¬ IsStopWord stops (trimmed w)
        → Kept stops ws kept
        → Kept stops (w ∷ ws) (trimmed w ∷ kept)
    skip :
        {w : Text} {ws kept : List Text}
        → (length (trimmed w) < 3) ⊎ IsStopWord stops (trimmed w)
        → Kept stops ws kept
        → Kept stops (w ∷ ws) kept

  -- The stop words are the English ones for a language whose primary subtag is "en", and else the
  -- Russian ones.
  abbrev pub AreStopWordsOf : Text → List Text → Type 0
  AreStopWordsOf lang stops =
      ((primary_language (to_lower lang) ≡ codes "en") × (stops ≡ en_stop_words))
      ⊎ ((primary_language (to_lower lang) ≢ codes "en") × (stops ≡ ru_stop_words))

  -- The city is behind the words, where it is not "" and they do not have it, letter case aside.
  abbrev pub WithCity : Text → Text → Text → Type 0
  WithCity words city query =
      ((query ≡ words) × ((city ≡ []) ⊎ Occurs (to_lower city) (to_lower words)))
      ⊎ ((query ≡ words ++ (codes " " ++ city))
          × (city ≢ [])
          × ¬ Occurs (to_lower city) (to_lower words))

  any-IsStopWord_iff :
      (stops : List Text) (word : Text)
      → (any (text_eq (to_lower word)) stops ≡ true) ↔ IsStopWord stops word
  unfolding any
  any-IsStopWord_iff [] word = ground arith
  any-IsStopWord_iff (s ∷ stops) word =
      ground (arith, text_eq_iff (to_lower word) s, any-IsStopWord_iff stops word)

  meaningful-Kept : (stops ws : List Text) → Kept stops ws (meaningful stops ws)
  unfolding meaningful is_meaningful
  meaningful-Kept stops [] = done
  meaningful-Kept stops (w ∷ ws) = elim (Bool-cases (is_meaningful stops (trimmed w))) [
    | inl e ↦ rw (e) (
        keep (ground arith) (ground (arith, any-IsStopWord_iff stops (trimmed w)))
          (meaningful-Kept stops ws))
    | inr e ↦ rw (e) (skip (meaningless stops (trimmed w) e) (meaningful-Kept stops ws))
  ]
    where
      meaningless :
          (stops : List Text) (word : Text)
          → is_meaningful stops word ≡ false
          → (length word < 3) ⊎ IsStopWord stops word
      meaningless stops [] e = inl (omega arith)
      meaningless stops (c ∷ word) e = ground (arith, any-IsStopWord_iff stops (c ∷ word))

  stop_words-AreStopWordsOf : (lang : Text) → AreStopWordsOf lang (stop_words lang)
  unfolding stop_words
  stop_words-AreStopWordsOf lang =
      elim (Bool-cases (text_eq (primary_language (to_lower lang)) (codes "en"))) [
        | inl e ↦ rw (e) (inl ((text_eq_iff _ (codes "en")).0 e, refl))
        | inr e ↦ rw (e) (inr ((λ same. cc (e, (text_eq_iff _ (codes "en")).1 same)), refl))
      ]

  to_lower-append : (s t : Text) → to_lower (s ++ t) ≡ to_lower s ++ to_lower t
  unfolding to_lower
  to_lower-append [] t = refl
  to_lower-append (c ∷ s) t = ap (λ r. lower c ∷ r) (to_lower-append s t)

  -- A text that ends with another, in any case.
  mentions_end : (s t : Text) → contains (to_lower (s ++ t)) (to_lower t) ≡ true
  mentions_end s t = (contains_iff (to_lower (s ++ t)) (to_lower t)).1 (
    to_lower s,
    [],
    to_lower-append s t ∙ ap (λ r. to_lower s ++ r) (sym (append-nil (to_lower t))),
  )

  with_city-contains :
      (query city : Text) → contains (to_lower (with_city query city)) (to_lower city) ≡ true
  unfolding with_city
  with_city-contains query [] =
      unfold to_lower in (contains_iff (to_lower query) []).1 ([], to_lower query, refl)
  with_city-contains query (c ∷ city) =
      elim (Bool-cases (contains (to_lower query) (to_lower (c ∷ city)))) [
        | inl e ↦ rw (e) e
        | inr e ↦ rw (e) (
            subst (λ q. contains (to_lower q) (to_lower (c ∷ city)) ≡ true)
              (append_assoc query (codes " ") (c ∷ city))
              (mentions_end (query ++ codes " ") (c ∷ city)))
      ]

  with_city-WithCity : (words city : Text) → WithCity words city (with_city words city)
  unfolding with_city
  with_city-WithCity words [] = inl (refl, inl refl)
  with_city-WithCity words (c ∷ city) =
      elim (Bool-cases (contains (to_lower words) (to_lower (c ∷ city)))) [
        | inl e ↦
            rw (e) (inl (refl, inr ((contains_iff (to_lower words) (to_lower (c ∷ city))).0 e)))
        | inr e ↦ rw (e) (
            inr (
              refl,
              (λ h. cc),
              λ o. cc (e, (contains_iff (to_lower words) (to_lower (c ∷ city))).1 o),
            ))
      ]

  -- The query is made of the first five of those words of the title, trimmed and in order, that have
  -- three runes or more and are, in small letters, no stop words of the language, joined by spaces,
  -- with a space and the city behind them where the city is not "" and they do not have it; and it
  -- has the city, letter case aside.
  pub build_image_query_lang_lem :
      (title city lang : Text)
      → (stops kept : List Text) × AreStopWordsOf lang stops
        × Kept stops (fields title) kept
        × WithCity (join (take 5 kept) (codes " ")) city (build_image_query_lang title city lang)
        × Occurs (to_lower city) (to_lower (build_image_query_lang title city lang))
  unfolding query_words build_image_query_lang
  build_image_query_lang_lem title city lang = (
    stop_words lang,
    meaningful (stop_words lang) (fields title),
    stop_words-AreStopWordsOf lang,
    meaningful-Kept (stop_words lang) (fields title),
    with_city-WithCity _ city,
    (contains_iff _ (to_lower city)).0
        (with_city-contains (join (query_words title lang) (codes " ")) city),
  )
