-- ===== src/Classes/Answers.antt =====
-- The class that an answer is given, whatever the order of the list of classes.
use go_imagefy.Prelude.{
  true, List, [], ◌∷◌, ◌++◌, length, ◌≡◌, ◌≢◌, ◌↔◌, ◌⊎◌, inl, inr, refl, sym, ◌∙◌, subst, arith,
  Bool-cases,
}
use go_imagefy.Text.{Text, has_prefix, trim_space, drop, text_eq}
use go_imagefy.Text.Search.{StartsWith, has_prefix_iff, text_eq_iff}
use go_imagefy.Platform.{Platform, to_upper}
use go_imagefy.Classes.{
  class_photo, class_stock, class_reject, class_screenshot, class_illustration, class_map,
  class_placeholder, classification_classes, Floats, match_class, with_confidence,
  parse_classification_result,
}

-- The text is one of the seven classes.
abbrev pub IsClass : Text → Type 0
IsClass cls =
    (cls ≡ class_illustration)
    ⊎ (cls ≡ class_placeholder)
    ⊎ (cls ≡ class_screenshot)
    ⊎ (cls ≡ class_reject)
    ⊎ (cls ≡ class_photo)
    ⊎ (cls ≡ class_stock)
    ⊎ (cls ≡ class_map)

-- The answer as the parser compares it.
abbrev pub normal_answer : ⦃p : Platform⦄ → Text → Text
normal_answer resp = to_upper (trim_space resp)

match_class_hit :
    (upper : Text) (cs : List Text)
    → match_class upper cs ≢ []
    → has_prefix upper (match_class upper cs) ≡ true
unfolding match_class
match_class_hit upper [] h = absurd (h refl)
match_class_hit upper (k ∷ cs) h = elim (Bool-cases (has_prefix upper k)) [
  | inl hit ↦ rw hit hit
  | inr miss ↦ rw miss (match_class_hit upper cs (λ e. h (rw miss e)))
]

classes : Unit {0}
unfolding match_class has_prefix classification_classes
classes = tt

-- What follows a class does not matter: two letters tell the classes apart.
match_class-append :
    (cls rest : Text) → IsClass cls → match_class (cls ++ rest) classification_classes ≡ cls
unfolding classes
match_class-append cls rest k = elim k [
  | inl e ↦ rw e
  | inr (inl e) ↦ rw e
  | inr (inr (inl e)) ↦ rw e
  | inr (inr (inr (inl e))) ↦ rw e
  | inr (inr (inr (inr (inl e)))) ↦ rw e
  | inr (inr (inr (inr (inr (inl e))))) ↦ rw e
  | inr (inr (inr (inr (inr (inr e))))) ↦ rw e
]

pub match_class-nil : match_class [] classification_classes ≡ []
unfolding classes
match_class-nil = refl

picks : (s cls : Text) → IsClass cls → StartsWith cls s → match_class s classification_classes ≡ cls
picks s cls k (rest, e) = rw e (match_class-append cls rest k)

pub class-ne-nil : (cls : Text) → IsClass cls → cls ≢ []
class-ne-nil cls k e = ground arith

starts_of_match :
    (s cls : Text)
    → IsClass cls
    → match_class s classification_classes ≡ cls
    → has_prefix s cls ≡ true
starts_of_match s cls k e =
    subst (λ c. has_prefix s c ≡ true) e
      (match_class_hit s classification_classes (λ n. class-ne-nil cls k (sym e ∙ n)))

-- The class that is found is `cls` exactly when the answer starts with `cls`, as Booleans.
pub has_prefix-text_eq :
    (s cls : Text)
    → IsClass cls
    → has_prefix s cls ≡ text_eq (match_class s classification_classes) cls
has_prefix-text_eq s cls k = elim (Bool-cases (has_prefix s cls)) [
  | inl hit ↦ hit ∙ sym ((text_eq_iff _ _).1 (picks s cls k ((has_prefix_iff s cls).0 hit)))
  | inr miss ↦ elim (Bool-cases (text_eq (match_class s classification_classes) cls)) [
    | inl same ↦ cc (starts_of_match s cls k ((text_eq_iff _ _).0 same))
    | inr other ↦ miss ∙ sym other
  ]
]

match_class-IsClass :
    (s : Text)
    → (match_class s classification_classes ≡ []) ⊎ IsClass (match_class s classification_classes)
unfolding match_class classification_classes
match_class-IsClass s = ground arith

module _ {F : Type 0} (floats : Floats F) ⦃p : Platform⦄ where
  pub with_confidence-class :
      (matched remainder : Text) → (with_confidence floats matched remainder).class ≡ matched
  unfolding with_confidence
  with_confidence-class matched remainder = ground arith

  pub parse-match_class :
      (resp : Text)
      → (parse_classification_result floats resp).class
        ≡ match_class (normal_answer resp) classification_classes
  unfolding parse_classification_result
  parse-match_class resp = ground (
    arith,
    match_class-nil,
    with_confidence-class (match_class (normal_answer resp) classification_classes) (
        trim_space (
          drop (length (match_class (normal_answer resp) classification_classes))
            (normal_answer resp))),
  )

  -- The class of an answer is one of the seven classes or "".
  pub parse_classification_result-IsClass :
      (resp : Text)
      → ((parse_classification_result floats resp).class ≡ [])
        ⊎ IsClass (parse_classification_result floats resp).class
  parse_classification_result-IsClass resp =
      rw parse-match_class (match_class-IsClass (normal_answer resp))

  -- The class of an answer is a given one of the seven classes exactly when the answer starts with
  -- that class, letter case and outer spaces aside.
  pub parse_classification_result_iff :
      (resp cls : Text)
      → IsClass cls
      → ((parse_classification_result floats resp).class ≡ cls)
        ↔ StartsWith cls (normal_answer resp)
  parse_classification_result_iff resp cls k = rw parse-match_class (
    (λ e. (has_prefix_iff _ _).0 (starts_of_match (normal_answer resp) cls k e)),
    picks (normal_answer resp) cls k,
  )

  -- An answer that starts with none of the seven classes, letter case and outer spaces aside, gives
  -- the empty class with confidence zero.
  pub parse_classification_result_other :
      (resp : Text)
      → ((cls : Text) → IsClass cls → ¬ StartsWith cls (normal_answer resp))
      → parse_classification_result floats resp
        ≡ record { class = []; confidence = floats.zero_float }
  unfolding parse_classification_result
  parse_classification_result_other resp h = elim (match_class-IsClass (normal_answer resp)) [
    | inl unmatched ↦ ground arith
    | inr k ↦
        absurd (h _ k ((has_prefix_iff _ _).0 (starts_of_match (normal_answer resp) _ k refl)))
  ]
