-- ===== src/Dedup/Distinct.antt =====
-- What the filter of duplicates keeps and answers.
use go_imagefy.Prelude.{
  ℤ, pos, ltb_ℤ, true, false, some, List, [], ◌∷◌, ◌++◌, any, any-append, subst, any_iff, ◌≡◌, ◌↔◌,
  inl, inr, arith, All, All-append, Any, Bool-cases, Option-cases,
}
use go_imagefy.Dedup.{Hashing, is_near, is_duplicate}

module _ {Img Hash : Type 0} (hashing : Hashing Img Hash) where
  -- The first hash has a distance from the second, and that is below ten.
  abbrev pub IsClose : Hash → Hash → Type 0
  IsClose hash h = (dist : ℤ) × (hashing.distance hash h ≡ some dist) × (ltb_ℤ dist (pos 10) ≡ true)

  -- No stored hash is close to one that was stored before it.
  abbrev pub AreApart : List Hash → Type 0
  AreApart [] = Unit
  AreApart (h ∷ hs) = All (λ later. ¬ IsClose later h) hs × AreApart hs

  far-IsClose : (hash h : Hash) → is_near hashing hash h ≡ false → ¬ IsClose hash h
  unfolding is_near
  far-IsClose hash h far (dist, e, lt) = ground arith

  all_far :
      (hash : Hash) (hs : List Hash)
      → any (is_near hashing hash) hs ≡ false
      → All (λ h. ¬ IsClose hash h) hs
  unfolding any
  all_far hash [] e = tt
  all_far hash (h ∷ hs) e = (far-IsClose hash h (ground arith), all_far hash hs (ground arith))

  AreApart-append :
      (hash : Hash) (hs : List Hash)
      → All (λ h. ¬ IsClose hash h) hs
      → AreApart hs
      → AreApart (hs ++ hash ∷ [])
  AreApart-append hash [] far apart = (tt, tt)
  AreApart-append hash (h ∷ hs) (here, far) (a, apart) =
      (All-append _ hs (hash ∷ []) a (here, tt), AreApart-append hash hs far apart)

  -- The stored hashes stay apart, whatever image comes.
  pub is_duplicate-AreApart :
      (hs : List Hash) (img : Img) → AreApart hs → AreApart (is_duplicate hashing hs img).1
  unfolding is_duplicate
  is_duplicate-AreApart hs img apart = elim (Option-cases (hashing.difference_hash img)) [
    | inl e ↦ rw (e, is_duplicate) apart
    | inr (hash, e) ↦ elim (Bool-cases (any (is_near hashing hash) hs)) [
      | inl near ↦ rw (e, is_duplicate, near) apart
      | inr far ↦ rw (e, is_duplicate, far) (AreApart-append hash hs (all_far hash hs far) apart)
    ]
  ]

  -- An image is called a duplicate exactly when it has a hash and a stored hash is near to that.
  pub is_duplicate_iff :
      (hs : List Hash) (img : Img)
      → ((is_duplicate hashing hs img).0 ≡ true) ↔ (
          (hash : Hash) × (hashing.difference_hash img ≡ some hash)
          × Any (λ h. is_near hashing hash h ≡ true) hs)
  unfolding is_duplicate
  is_duplicate_iff hs img = elim (Option-cases (hashing.difference_hash img)) [
    | inl e ↦ rw (e, is_duplicate) ((λ h. cc), λ h. cc (h.1))
    | inr (hash, e) ↦ (
      (λ h. (hash, e, (any_iff (is_near hashing hash) hs).0 (ground arith))),
      λ h.
          let same : h.0 ≡ hash = cc (e, h.1) in
          let near = subst (λ x. Any (λ k. is_near hashing x k ≡ true) hs) same h.2 in
          rw (e, is_duplicate, (any_iff (is_near hashing hash) hs).1 near),
    )
  ]

  any_self :
      (hash : Hash)
      → is_near hashing hash hash ≡ true
      → any (is_near hashing hash) (hash ∷ []) ≡ true
  unfolding any
  any_self hash self = ground arith

  -- An accepted image that has a hash is a duplicate when it comes again, for a distance that finds
  -- a hash near to itself; a duplicate leaves the stored hashes as they were.
  pub is_duplicate_again :
      (hs : List Hash) (img : Img) (hash : Hash)
      → hashing.difference_hash img ≡ some hash
      → is_near hashing hash hash ≡ true
      → ((is_duplicate hashing (is_duplicate hashing hs img).1 img).0 ≡ true)
        × ((is_duplicate hashing (is_duplicate hashing hs img).1 img).1
            ≡ (is_duplicate hashing hs img).1)
  unfolding is_duplicate
  is_duplicate_again hs img hash e self =
      ground (arith, any-append (is_near hashing hash) hs (hash ∷ []), any_self hash self)
