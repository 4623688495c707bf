-- ===== src/Pipeline/Schedule/Memory.antt =====
-- What the filter of duplicates remembers, after every interleaving of the goroutines.
use go_imagefy.Prelude.{
  ℤ, false, Option, some, none, List, [], ◌∷◌, ◌++◌, ◌≡◌, ◌⊎◌, inl, inr, refl, subst, arith, All,
  All-at, All-remove, All-replace, All-map, Any, Any-at, any, Bool-cases, Option-cases,
}
use go_imagefy.Platform.{Platform}
use go_imagefy.Candidate.{ImageCandidate}
use go_imagefy.Http.{Context}
use go_imagefy.Config.{Config}
use go_imagefy.Config.Environment.{Environment}
use go_imagefy.Dedup.{Hashing, is_near, is_duplicate}
use go_imagefy.Pipeline.{Downloaded, fetch, dedup}
use go_imagefy.Pipeline.Schedule.{
  Task, running, fetched, fresh, passed, Machine, Step, spawn, stop, acquire, dropped, download,
  duplicate, unique, reject, accept, append, drift,
}
use go_imagefy.Pipeline.Schedule.Invariant.{append_validated-All}

module _ {Img Hash : Type 0} (hashing : Hashing Img Hash) where
  -- The image has no hash, or its hash is among the given ones.
  abbrev pub HasStoredHash : List Hash → Img → Type 0
  HasStoredHash hs img =
      (hashing.difference_hash img ≡ none)
      ⊎ ((hash : Hash) × (hashing.difference_hash img ≡ some hash) × Any (λ h. h ≡ hash) hs)

  -- The filter forgets no hash.
  is_duplicate-keeps :
      (hs : List Hash) (img : Img) (hash : Hash)
      → Any (λ h. h ≡ hash) hs
      → Any (λ h. h ≡ hash) (is_duplicate hashing hs img).1
  unfolding is_duplicate
  is_duplicate-keeps hs img hash i = elim (Option-cases (hashing.difference_hash img)) [
    | inl e ↦ rw (e, is_duplicate) i
    | inr (own, e) ↦ elim (Bool-cases (any (is_near hashing own) hs)) [
      | inl near ↦ rw (e, is_duplicate, near) i
      | inr far ↦ rw (e, is_duplicate, far) (Any-left (λ h. h ≡ hash) hs (own ∷ []) i)
    ]
  ]
    where
      Any-left : (P : Hash → Type 0) (xs ys : List Hash) → Any P xs → Any P (xs ++ ys)
      Any-left P [] ys i = elim i [ ]
      Any-left P (x ∷ xs) ys (inl i) = inl i
      Any-left P (x ∷ xs) ys (inr i) = inr (Any-left P xs ys i)

  HasStoredHash-keeps :
      (hs : List Hash) (other img : Img)
      → HasStoredHash hs img
      → HasStoredHash (is_duplicate hashing hs other).1 img
  HasStoredHash-keeps hs other img (inl e) = inl e
  HasStoredHash-keeps hs other img (inr (hash, e, i)) =
      inr (hash, e, is_duplicate-keeps hs other hash i)

  -- An image that the filter lets pass has its hash stored.
  is_duplicate-stores :
      (hs : List Hash) (img : Img)
      → (is_duplicate hashing hs img).0 ≡ false
      → HasStoredHash (is_duplicate hashing hs img).1 img
  unfolding is_duplicate
  is_duplicate-stores hs img e = elim (Option-cases (hashing.difference_hash img)) [
    | inl none_left ↦ inl none_left
    | inr (own, f) ↦ elim (Bool-cases (any (is_near hashing own) hs)) [
      | inl near ↦ absurd (ground arith)
      | inr far ↦ inr (own, f, rw (f, is_duplicate, far) (Any-at (λ h. h ≡ own) hs [] own refl))
    ]
  ]

module _ {W Img Hash F : Type 0} (env : Environment W Img Hash F) ⦃p : Platform⦄ (cfg : Config W F)
    (ctx : Context) where
  -- There is no decoded image, or it has no hash or a stored one.
  abbrev pub ImageIsStored : List Hash → Option Img → Type 0
  ImageIsStored hs none = Unit
  ImageIsStored hs (some img) = HasStoredHash env.hashing hs img

  -- This holds of what was fetched for the candidate.
  abbrev pub IsStored : List Hash → ImageCandidate → Type 0
  IsStored hs c =
      (d : Downloaded Img) × ((w : W) × ((fetch env cfg ctx c w).0 ≡ some d))
      × ImageIsStored hs d.image

  -- What the filter knows of a goroutine at each stage.
  abbrev pub IsRemembered : List Hash → Task Img → Type 0
  IsRemembered hs (running c) = Unit
  IsRemembered hs (fetched c d) = (w : W) × ((fetch env cfg ctx c w).0 ≡ some d)
  IsRemembered hs (fresh c d) =
      ((w : W) × ((fetch env cfg ctx c w).0 ≡ some d)) × ImageIsStored hs d.image
  IsRemembered hs (passed c) = IsStored hs c

  keeps_image :
      (hs : List Hash) (new image : Option Img)
      → ImageIsStored hs image
      → ImageIsStored (dedup env cfg ctx hs new).1 image
  unfolding dedup
  keeps_image hs none image h = h
  keeps_image hs (some other) none h = tt
  keeps_image hs (some other) (some img) h = HasStoredHash-keeps env.hashing hs other img h

  module _ (hs : List Hash) (new : Option Img) where
    keeps : (c : ImageCandidate) → IsStored hs c → IsStored (dedup env cfg ctx hs new).1 c
    keeps c (d, f, h) = (d, f, keeps_image hs new d.image h)

    keeps_task : (t : Task Img) → IsRemembered hs t → IsRemembered (dedup env cfg ctx hs new).1 t
    keeps_task (running c) h = tt
    keeps_task (fetched c d) h = h
    keeps_task (fresh c d) (f, h) = (f, keeps_image hs new d.image h)
    keeps_task (passed c) h = keeps c h

  stores :
      (hs : List Hash) (image : Option Img)
      → (dedup env cfg ctx hs image).0 ≡ false
      → ImageIsStored (dedup env cfg ctx hs image).1 image
  unfolding dedup
  stores hs none e = tt
  stores hs (some img) e = is_duplicate-stores env.hashing hs img e

  module _ (max_results : ℤ) where
    pub record Remembers (m : Machine W Img Hash) : Type 0 where
      pub active : All (IsRemembered m.hashes) m.active
      pub validated : All (IsStored m.hashes) m.validated

    module _ {m : Machine W Img Hash} (v : Remembers m) where
      around :
          (before after : List (Task Img)) (t : Task Img)
          → m.active ≡ before ++ t ∷ after
          → All (IsRemembered m.hashes) (before ++ t ∷ after)
      around before after t e = subst (All (IsRemembered m.hashes)) e v.active

      at :
          (before after : List (Task Img)) (t : Task Img)
          → m.active ≡ before ++ t ∷ after
          → IsRemembered m.hashes t
      at before after t e = All-at (IsRemembered m.hashes) before after t (around before after t e)

      ended :
          (before after : List (Task Img)) (t : Task Img)
          → m.active ≡ before ++ t ∷ after
          → All (IsRemembered m.hashes) (before ++ after)
      ended before after t e =
          All-remove (IsRemembered m.hashes) before after t (around before after t e)

      moved :
          (before after : List (Task Img)) (t u : Task Img)
          → m.active ≡ before ++ t ∷ after
          → IsRemembered m.hashes u
          → All (IsRemembered m.hashes) (before ++ u ∷ after)
      moved before after t u e h =
          All-replace (IsRemembered m.hashes) before after t u h (around before after t e)

      more :
          (image : Option Img) (ts : List (Task Img))
          → All (IsRemembered m.hashes) ts
          → All (IsRemembered (dedup env cfg ctx m.hashes image).1) ts
      more image ts = All-map _ _ (keeps_task m.hashes image) ts

      more_results :
          (image : Option Img) → All (IsStored (dedup env cfg ctx m.hashes image).1) m.validated
      more_results image = All-map _ _ (keeps m.hashes image) m.validated v.validated

    pub Step-Remembers :
        {m n : Machine W Img Hash} → Step env cfg ctx max_results m n → Remembers m → Remembers n
    Step-Remembers (spawn c cs e f) v = record { active = v.active; validated = v.validated }
    Step-Remembers (stop c cs e f) v = record { active = v.active; validated = v.validated }
    Step-Remembers (acquire before after c e lt) v = record {
      active = (tt, v.active);
      validated = v.validated;
    }
    Step-Remembers (dropped before after c e f) v = record {
      active = ended v before after _ e;
      validated = v.validated;
    }
    Step-Remembers {m} (download before after c d e f) v = record {
      active = moved v before after _ _ e (m.world, f);
      validated = v.validated;
    }
    Step-Remembers (duplicate before after c d e f) v = record {
      active = more v d.image _ (ended v before after _ e);
      validated = more_results v d.image;
    }
    Step-Remembers {m} (unique before after c d e f) v = record {
      active =
          All-replace _ before after (fetched c d) (fresh c d)
            (at v before after _ e, stores m.hashes d.image f)
            (more v d.image _ (around v before after _ e));
      validated = more_results v d.image;
    }
    Step-Remembers (reject before after c d e f) v = record {
      active = ended v before after _ e;
      validated = v.validated;
    }
    Step-Remembers (accept before after c d e f) v = record {
      active =
          let (fetched_so, stored) = at v before after _ e in
          moved v before after _ _ e (d, fetched_so, stored);
      validated = v.validated;
    }
    Step-Remembers {m} (append before after c e) v = record {
      active = ended v before after _ e;
      validated =
          append_validated-All (IsStored m.hashes) m.validated c max_results v.validated
            (at v before after _ e);
    }
    Step-Remembers (drift w) v = record { active = v.active; validated = v.validated }
