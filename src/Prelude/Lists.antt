-- ===== src/Prelude/Lists.antt =====
-- List functions over native numbers, `for` loops that search a slice, and predicates on lists.
use Prim.Native.Nat.{ℕ, zero, suc, ◌+◌, ◌≤◌}
use mathlib.Core.Path.{◌≡◌, refl}
use mathlib.Core.Logic.{◌↔◌, ◌⊎◌, inl, inr}
use mathlib.Core.Bool.{Bool, true, false, ◌||◌}
use mathlib.Core.List.{List, [], ◌∷◌, ◌++◌}
use mathlib.Core.Option.{Option, none, some}
use native.Mathlib.Omega.{arith}

module _ {ℓ} {A : Type ℓ} where
  abbrev pub length : List A → ℕ
  length [] = 0
  length (x ∷ xs) = suc (length xs)

  abbrev pub take : ℕ → List A → List A
  take zero xs = []
  take (suc n) [] = []
  take (suc n) (x ∷ xs) = x ∷ take n xs

  abbrev pub get_elem? : List A → ℕ → Option A
  get_elem? [] i = none
  get_elem? (x ∷ xs) zero = some x
  get_elem? (x ∷ xs) (suc i) = get_elem? xs i

  -- `for _, x := range xs { if p(x) { return true } }; return false`
  unfoldable pub any : (A → Bool) → List A → Bool
  any p [] = false
  any p (x ∷ xs) = p x || any p xs

  abbrev pub is_empty : List A → Bool
  is_empty [] = true
  is_empty (x ∷ xs) = false

module _ {ℓ} {A : Type ℓ} where
  pub length-append : (xs ys : List A) → length (xs ++ ys) ≡ length xs + length ys
  length-append [] ys = omega arith
  length-append (x ∷ xs) ys = omega (arith, length-append xs ys)

  pub length-take-le : (n : ℕ) (xs : List A) → length (take n xs) ≤ n
  length-take-le zero xs = omega arith
  length-take-le (suc n) [] = omega arith
  length-take-le (suc n) (x ∷ xs) = omega (arith, length-take-le n xs)

module _ {ℓ κ} {A : Type ℓ} (P : A → Type κ) where
  -- Every element has the property.
  abbrev pub All : List A → Type κ
  All [] = Unit
  All (x ∷ xs) = P x × All xs

-- Some element has the property: the position is kept.
abbrev pub Any {ℓ} : {A : Type ℓ} → (A → Type 0) → List A → Type 0
Any P [] = ⊥
Any P (x ∷ xs) = P x ⊎ Any P xs

module _ {ℓ κ} {A : Type ℓ} (P : A → Type κ) where
  pub All-append : (xs ys : List A) → All P xs → All P ys → All P (xs ++ ys)
  All-append [] ys hx hy = hy
  All-append (x ∷ xs) ys (px, hx) hy = (px, All-append xs ys hx hy)

  pub All-take : (n : ℕ) (xs : List A) → All P xs → All P (take n xs)
  All-take zero xs h = tt
  All-take (suc n) [] h = tt
  All-take (suc n) (x ∷ xs) (px, h) = (px, All-take n xs h)

pub All-map {ℓ κ η} :
    {A : Type ℓ} (P : A → Type κ) (Q : A → Type η) (f : (x : A) → P x → Q x) (xs : List A)
    → All P xs
    → All Q xs
All-map P Q f [] h = tt
All-map P Q f (x ∷ xs) (px, h) = (f x px, All-map P Q f xs h)

-- The search loop finds something exactly when some element passes its test.
pub any_iff {ℓ} :
    {A : Type ℓ} (p : A → Bool) (xs : List A) → (any p xs ≡ true) ↔ Any (λ x. p x ≡ true) xs
unfolding any
any_iff p [] = ((λ h. cc), λ h. absurd h)
any_iff p (x ∷ xs) = ground (arith, any_iff p xs)

-- The same, where a property says what the test of each element means.
pub any_iff_of {ℓ} :
    {A : Type ℓ} (p : A → Bool) (P : A → Type 0) (xs : List A)
    → All (λ x. (p x ≡ true) ↔ P x) xs
    → (any p xs ≡ true) ↔ Any P xs
unfolding any
any_iff_of p P [] h = ((λ e. cc), λ e. absurd e)
any_iff_of p P (x ∷ xs) (hx, hs) = ground (arith, hx, any_iff_of p P xs hs)

pub All-pure {ℓ κ} : {A : Type ℓ} (P : A → Type κ) → ((x : A) → P x) → (xs : List A) → All P xs
All-pure P h [] = tt
All-pure P h (x ∷ xs) = (h x, All-pure P h xs)

pub any-append {ℓ} :
    {A : Type ℓ} (p : A → Bool) (xs ys : List A) → any p (xs ++ ys) ≡ (any p xs || any p ys)
unfolding any
any-append p [] ys = refl
any-append p (x ∷ xs) ys = ground (arith, any-append p xs ys)

-- A list around one of its elements.
module _ {ℓ κ} {A : Type ℓ} (P : A → Type κ) where
  pub All-at : (before after : List A) (x : A) → All P (before ++ x ∷ after) → P x
  All-at [] after x h = h.0
  All-at (y ∷ before) after x h = All-at before after x h.1

  pub All-remove :
      (before after : List A) (x : A) → All P (before ++ x ∷ after) → All P (before ++ after)
  All-remove [] after x h = h.1
  All-remove (y ∷ before) after x h = (h.0, All-remove before after x h.1)

  pub All-replace :
      (before after : List A) (x y : A)
      → P y
      → All P (before ++ x ∷ after)
      → All P (before ++ y ∷ after)
  All-replace [] after x y py h = (py, h.1)
  All-replace (z ∷ before) after x y py h = (h.0, All-replace before after x y py h.1)

pub length-around {ℓ} :
    {A : Type ℓ} (before after : List A) (x : A)
    → length (before ++ x ∷ after) ≡ suc (length (before ++ after))
length-around [] after x = refl
length-around (y ∷ before) after x = omega (arith, length-around before after x)

module _ {ℓ} {A : Type ℓ} (P : A → Type 0) where
  pub Any-at : (before after : List A) (x : A) → P x → Any P (before ++ x ∷ after)
  Any-at [] after x h = inl h
  Any-at (y ∷ before) after x h = inr (Any-at before after x h)

  pub Any-insert :
      (before after : List A) (x : A) → Any P (before ++ after) → Any P (before ++ x ∷ after)
  Any-insert [] after x h = inr h
  Any-insert (y ∷ before) after x (inl h) = inl h
  Any-insert (y ∷ before) after x (inr h) = inr (Any-insert before after x h)

  -- Where a property holds of every element, it holds of each that occurs.
  pub All-Any : {Q : A → Type 0} (xs : List A) → All Q xs → Any P xs → (x : A) × P x × Q x
  All-Any [] h a = absurd a
  All-Any (x ∷ xs) (qx, h) (inl px) = (x, px, qx)
  All-Any (x ∷ xs) (qx, h) (inr a) = All-Any xs h a
