-- ===== src/Classes.antt =====
-- classify_types.go: the classes of the vision model's answer, and its parser.
pub mod Answers
pub mod Confidence
use go_imagefy.Prelude.{
  ℕ, ◌+◌, Bool, true, false, ◌||◌, Option, some, none, List, [], ◌∷◌, is_empty, if◌then◌else◌,
  length,
}
use go_imagefy.Text.{Text, codes, has_prefix, trim_space, fields, drop}
use go_imagefy.Platform.{Platform, to_upper}

abbrev pub class_photo : Text
class_photo = codes "PHOTO"

abbrev pub class_stock : Text
class_stock = codes "STOCK"

abbrev pub class_reject : Text
class_reject = codes "REJECT"

abbrev pub class_screenshot : Text
class_screenshot = codes "SCREENSHOT"

abbrev pub class_illustration : Text
class_illustration = codes "ILLUSTRATION"

abbrev pub class_map : Text
class_map = codes "MAP"

abbrev pub class_placeholder : Text
class_placeholder = codes "PLACEHOLDER"

unfoldable pub classification_classes : List Text
classification_classes =
    class_illustration ∷ class_placeholder ∷ class_screenshot ∷ class_reject ∷ class_photo
    ∷ class_stock ∷ class_map ∷ []

-- What the program uses of `float64`: two constants, two comparisons, and `strconv.ParseFloat`
-- (`none` is an error).
pub record Floats (F : Type 0) : Type 0 where
  pub zero_float : F
  pub one_float : F
  -- `x <= 0` and `x > 1`.
  pub le_zero : F → Bool
  pub gt_one : F → Bool
  pub parse_float : Text → Option F

pub record ClassificationResult (F : Type 0) : Type 0 where
  pub class : Text
  pub confidence : F

-- The loop over the classes: the first that the answer starts with, or "".
unfoldable pub match_class : Text → List Text → Text
match_class upper [] = []
match_class upper (cls ∷ rest) =
    let later = match_class upper rest in if has_prefix upper cls then cls else later

-- `fields[0]` of what follows the class; the caller has excluded the empty remainder.
abbrev pub first_word : Text → Text
first_word s = elim (fields s) [ [] ↦ [] | w ∷ ws ↦ w ]

module _ {F : Type 0} (floats : Floats F) where
  abbrev pub result : Text → F → ClassificationResult F
  result class confidence = record { class = class; confidence = confidence }

  -- The last step: a confidence that does not parse or is out of range becomes 0.
  unfoldable pub with_confidence : Text → Text → ClassificationResult F
  with_confidence matched remainder =
      if is_empty remainder
      then result matched floats.zero_float
      else elim (floats.parse_float (first_word remainder)) [
        | none ↦ result matched floats.zero_float
        | some conf ↦
            if floats.le_zero conf || floats.gt_one conf
            then result matched floats.zero_float
            else result matched conf
      ]

  module _ ⦃p : Platform⦄ where
    -- `ParseClassificationResult`.
    unfoldable pub parse_classification_result : Text → ClassificationResult F
    parse_classification_result resp =
        let upper = to_upper (trim_space resp) in
        if is_empty upper
        then result [] floats.zero_float
        else (let matched = match_class upper classification_classes in
            if is_empty matched
            then result [] floats.zero_float
            else with_confidence matched (trim_space (drop (length matched) upper)))

-- `ParseVisionResponse`.
unfoldable pub parse_vision_response : ⦃p : Platform⦄ → Text → Text
parse_vision_response resp =
    let word = to_upper (trim_space resp) in
    if has_prefix word class_photo
    then class_photo
    else if has_prefix word class_stock
    then class_stock
    else if has_prefix word class_reject
    then class_reject
    else []
