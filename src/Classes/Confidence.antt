-- ===== src/Classes/Confidence.antt =====
-- The confidence of an answer, and the older parser of three classes.
use go_imagefy.Prelude.{
  false, ◌||◌, some, [], ◌∷◌, is_empty, if◌then◌else◌, length, ◌≡◌, ◌≢◌, ◌⊎◌, inl, inr, refl, sym,
  ◌∙◌, ap, arith, Bool-cases, Option-cases,
}
use go_imagefy.Text.{Text, trim_space, drop, text_eq}
use go_imagefy.Text.Search.{text_eq_iff}
use go_imagefy.Platform.{Platform}
use go_imagefy.Classes.{
  class_photo, class_stock, class_reject, match_class, classification_classes, Floats, first_word,
  result, with_confidence, parse_classification_result, parse_vision_response,
}
use go_imagefy.Classes.Answers.{parse-match_class, has_prefix-text_eq, normal_answer}

module _ {F : Type 0} (floats : Floats F) ⦃p : Platform⦄ where
  -- What stands behind the class in an answer.
  abbrev pub remainder_of : Text → Text
  remainder_of resp =
      trim_space
        (drop (length (parse_classification_result floats resp).class) (normal_answer resp))

  -- The number parses and passes both comparisons.
  abbrev pub IsAccepted : Text → F → Type 0
  IsAccepted rest conf =
      (rest ≢ [])
      × (floats.parse_float (first_word rest) ≡ some conf)
      × (floats.le_zero conf ≡ false)
      × (floats.gt_one conf ≡ false)

  with_confidence-confidence :
      (matched rest : Text)
      → ((with_confidence floats matched rest).confidence ≡ floats.zero_float)
        ⊎ ((conf : F) × ((with_confidence floats matched rest).confidence ≡ conf)
            × IsAccepted rest conf)
  unfolding with_confidence
  with_confidence-confidence matched [] = inl refl
  with_confidence-confidence matched (c ∷ rest) =
      elim (Option-cases (floats.parse_float (first_word (c ∷ rest)))) [
        | inl e ↦ inl (ground arith)
        | inr (conf, e) ↦ elim (Bool-cases (floats.le_zero conf || floats.gt_one conf)) [
          | inl out ↦ inl (ground arith)
          | inr fits ↦ inr (conf, ground arith, ((λ n. cc), e, ground arith, ground arith))
        ]
      ]

  with_confidence_accepted :
      (matched rest : Text) (conf : F)
      → IsAccepted rest conf
      → (with_confidence floats matched rest).confidence ≡ conf
  unfolding with_confidence
  with_confidence_accepted matched [] conf h = absurd (h.0 refl)
  with_confidence_accepted matched (c ∷ rest) conf h = ground arith

  read_cases :
      (resp : Text)
      → let matched = match_class (normal_answer resp) classification_classes in
        (parse_classification_result floats resp ≡ result floats [] floats.zero_float)
        ⊎ (parse_classification_result floats resp
            ≡ with_confidence floats matched
                (trim_space (drop (length matched) (normal_answer resp))))
  unfolding parse_classification_result
  read_cases resp = elim (Bool-cases (is_empty (normal_answer resp))) [
    | inl e ↦ inl (rw e)
    | inr e ↦
        elim (Bool-cases (is_empty (match_class (normal_answer resp) classification_classes))) [
          | inl m ↦ inl (rw (e, m))
          | inr m ↦ inr (rw (e, m))
        ]
  ]

  parse_cases :
      (resp : Text)
      → (parse_classification_result floats resp ≡ result floats [] floats.zero_float)
        ⊎ ((matched : Text) × (parse_classification_result floats resp
              ≡ with_confidence floats matched (remainder_of resp)))
  parse_cases resp = elim (read_cases resp) [
    | inl e ↦ inl e
    | inr e ↦ inr (
      match_class (normal_answer resp) classification_classes,
      e
          ∙ ap
              (λ c.
                with_confidence floats (match_class (normal_answer resp) classification_classes)
                  (trim_space (drop (length c) (normal_answer resp))))
              (sym (parse-match_class floats resp)),
    )
  ]

  -- The confidence is zero, or a number that was read behind the class and is neither at most zero
  -- nor above one.
  pub parse_classification_result-confidence :
      (resp : Text)
      → ((parse_classification_result floats resp).confidence ≡ floats.zero_float)
        ⊎ ((conf : F) × ((parse_classification_result floats resp).confidence ≡ conf)
            × IsAccepted (remainder_of resp) conf)
  parse_classification_result-confidence resp = elim (parse_cases resp) [
    | inl e ↦ inl (ap (λ r. r.confidence) e)
    | inr (matched, e) ↦ elim (with_confidence-confidence matched (remainder_of resp)) [
      | inl zero_conf ↦ inl (ap (λ r. r.confidence) e ∙ zero_conf)
      | inr (conf, same, ok) ↦ inr (conf, ap (λ r. r.confidence) e ∙ same, ok)
    ]
  ]

  -- Behind a class, a number for which the comparisons "at most zero" and "above one" are both false
  -- is kept as it is; nothing else is asked of it.
  pub parse_classification_result_accepted :
      (resp : Text) (conf : F)
      → (parse_classification_result floats resp).class ≢ []
      → IsAccepted (remainder_of resp) conf
      → (parse_classification_result floats resp).confidence ≡ conf
  parse_classification_result_accepted resp conf named ok = elim (parse_cases resp) [
    | inl e ↦ absurd (named (ap (λ r. r.class) e))
    | inr (matched, e) ↦
        ap (λ r. r.confidence) e ∙ with_confidence_accepted matched (remainder_of resp) conf ok
  ]

  -- The photo, stock and reject answers are read alike by the older parser; it has "" for all others.
  pub parse_vision_response_lem :
      (resp : Text)
      → let cls = (parse_classification_result floats resp).class in
        parse_vision_response resp ≡ (
          if text_eq cls class_photo || text_eq cls class_stock || text_eq cls class_reject
          then cls
          else [])
  unfolding parse_vision_response
  parse_vision_response_lem resp =
      let s = normal_answer resp in
      let m = match_class s classification_classes in
      let photo = has_prefix-text_eq s class_photo (inr (inr (inr (inr (inl refl))))) in
      let stock = has_prefix-text_eq s class_stock (inr (inr (inr (inr (inr (inl refl)))))) in
      let reject = has_prefix-text_eq s class_reject (inr (inr (inr (inl refl)))) in
      rw (parse-match_class floats resp, photo, stock, reject)
        (ground
          (arith, text_eq_iff m class_photo, text_eq_iff m class_stock, text_eq_iff m class_reject))
