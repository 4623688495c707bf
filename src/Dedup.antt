-- ===== src/Dedup.antt =====
-- dedup.go: the filter that drops images whose perceptual hashes are near to one seen before.
-- The hash and the distance of `corona10/goimagehash` are parameters.
pub mod Distinct
use go_imagefy.Prelude.{
  ℕ, ℤ, pos, Bool, true, false, Option, some, none, List, [], ◌∷◌, ◌++◌, any, ltb_ℤ, if◌then◌else◌,
}

pub record Hashing (Img Hash : Type 0) : Type 0 where
  -- `DifferenceHash`; `none` is an error.
  pub difference_hash : Img → Option Hash
  -- `Distance`; `none` is an error.
  pub distance : Hash → Hash → Option ℤ

abbrev pub dedup_threshold : ℤ
dedup_threshold = pos 10

module _ {Img Hash : Type 0} (hashing : Hashing Img Hash) where
  -- `dist, err := hash.Distance(h); err == nil && dist < dedupThreshold`.
  unfoldable pub is_near : Hash → Hash → Bool
  is_near hash h = elim (hashing.distance hash h) [
    | none ↦ false
    | some dist ↦ ltb_ℤ dist dedup_threshold
  ]

  -- `isDuplicate` on the stored hashes: the answer, and the hashes stored afterwards.
  unfoldable pub is_duplicate : List Hash → Img → Bool × List Hash
  is_duplicate hashes img = elim (hashing.difference_hash img) [
    | none ↦ (false, hashes)
    | some hash ↦ if any (is_near hash) hashes then (true, hashes) else (false, hashes ++ hash ∷ [])
  ]
