-- ===== src/Text/Index.antt =====
-- Where `strings.Index` looks.
use Prim.Native.Nat.{ℕ}
use go_imagefy.Prelude.{
  ℕ, suc, ◌≤◌, ◌≡◌, inl, inr, refl, ap, [], ◌∷◌, ◌++◌, arith, Bool-cases, Option-cases, length,
  some,
}
use go_imagefy.Text.{Text, has_prefix, index, drop}
use go_imagefy.Text.Search.{has_prefix_sound, has_prefix-append}

pub index_sound :
    (s w : Text) (n : ℕ)
    → index s w ≡ some n
    → (before after : Text) × (s ≡ before ++ (w ++ after)) × (length before ≡ n)
unfolding index
index_sound [] w n h = elim (Bool-cases (has_prefix [] w)) [
  | inl here ↦ let (rest, e) = has_prefix_sound [] w here in ([], rest, e, ground arith)
  | inr not_here ↦ absurd (ground arith)
]
index_sound (c ∷ s) w n h = elim (Bool-cases (has_prefix (c ∷ s) w)) [
  | inl here ↦ let (rest, e) = has_prefix_sound (c ∷ s) w here in ([], rest, e, ground arith)
  | inr not_here ↦ elim (Option-cases (index s w)) [
    | inl missed ↦ absurd (ground arith)
    | inr (m, found) ↦
        let (before, after, e, len) = index_sound s w m found in
        (c ∷ before, after, ap (λ t. c ∷ t) e, ground arith)
  ]
]

pub index-le :
    (before w after : Text)
    → (n : ℕ) × (index (before ++ (w ++ after)) w ≡ some n) × (n ≤ length before)
unfolding index
index-le [] [] [] = (0, refl, omega arith)
index-le [] [] (c ∷ after) = (0, refl, omega arith)
index-le [] (c ∷ w) after = (0, ground (arith, has_prefix-append (c ∷ w) after), omega arith)
index-le (c ∷ before) w after = elim (Bool-cases (has_prefix (c ∷ (before ++ (w ++ after))) w)) [
  | inl here ↦ (0, rw here, omega arith)
  | inr not_here ↦
      let (n, e, le) = index-le before w after in (suc n, rw (not_here, e), omega arith)
]

pub drop-append : (before s : Text) → drop (length before) (before ++ s) ≡ s
unfolding drop
drop-append [] s = refl
drop-append (c ∷ before) s = drop-append before s

-- Beyond the first rune of what follows `before`.
pub drop-suc-append :
    (before : Text) (c : ℕ) (s : Text) → drop (suc (length before)) (before ++ (c ∷ s)) ≡ s
unfolding drop
drop-suc-append [] c [] = refl
drop-suc-append [] c (d ∷ s) = refl
drop-suc-append (b ∷ before) c s = drop-suc-append before c s
