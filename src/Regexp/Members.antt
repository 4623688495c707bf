-- ===== src/Regexp/Members.antt =====
-- Elements of lists, and of the lists that `flat_map` makes.
use go_imagefy.Prelude.{List, [], ◌∷◌, ◌++◌, ◌≡◌, ◌⊎◌, inl, inr, refl}
use go_imagefy.Regexp.{flat_map}

-- The element stands in the list.
pub data In {A : Type 0} (x : A) : List A → Type 0 where
  first : {ys : List A} → In x (x ∷ ys)
  later : {y : A} {ys : List A} → In x ys → In x (y ∷ ys)

pub In-left : {A : Type 0} {x : A} {xs : List A} (ys : List A) → In x xs → In x (xs ++ ys)
In-left ys first = first
In-left ys (later h) = later (In-left ys h)

pub In-right : {A : Type 0} {x : A} (xs : List A) {ys : List A} → In x ys → In x (xs ++ ys)
In-right [] h = h
In-right (y ∷ xs) h = later (In-right xs h)

pub In-either : {A : Type 0} {x : A} (xs ys : List A) → In x (xs ++ ys) → In x xs ⊎ In x ys
In-either [] ys h = inr h
In-either (y ∷ xs) ys first = inl first
In-either (y ∷ xs) ys (later h) = elim (In-either xs ys h) [ inl l ↦ inl (later l) | inr r ↦ inr r ]

pub In-single : {A : Type 0} {x y : A} → In x (y ∷ []) → y ≡ x
In-single first = refl
In-single (later h) = elim h [ ]

module _ {A B : Type 0} (f : A → List B) where
  pub In-flat_map : {x : A} {y : B} {xs : List A} → In x xs → In y (f x) → In y (flat_map f xs)
  unfolding flat_map
  In-flat_map first h = In-left _ h
  In-flat_map (later i) h = In-right _ (In-flat_map i h)

  pub flat_map-In : {y : B} (xs : List A) → In y (flat_map f xs) → (x : A) × In x xs × In y (f x)
  unfolding flat_map
  flat_map-In [] h = elim h [ ]
  flat_map-In (z ∷ xs) h = elim (In-either (f z) (flat_map f xs) h) [
    | inl l ↦ (z, first, l)
    | inr r ↦ let (x, i, j) = flat_map-In xs r in (x, later i, j)
  ]
