-- ===== src/Contract/Makers.antt =====
-- The candidates that the loops over results make.
use go_imagefy.Prelude.{
  Option, some, none, List, [], ◌∷◌, refl, All, Bool-cases, is_empty, inl, inr,
}
use go_imagefy.Platform.{Platform, to_lower}
use go_imagefy.License.{is_license_blocked, check_license}
use go_imagefy.Candidate.{ImageCandidate, is_logo_or_banner}
use go_imagefy.Web.{Attempt, success, failure, pick, candidates_from}
use go_imagefy.Contract.{IsAllowed, Allows}
use go_imagefy.Openverse
use go_imagefy.Openverse.{OpenverseResult}
use go_imagefy.Pexels.{PexelsOfficialPhoto, PexelsInternalItem, make_official, make_internal}
use go_imagefy.Ddg
use go_imagefy.Ddg.{DdgImageResult}
use go_imagefy.Native
use go_imagefy.Native.{NativeResult}

module _ ⦃p : Platform⦄ where
  -- There is no candidate, or an allowed one.
  abbrev pub IsGood : Option ImageCandidate → Type 0
  IsGood none = Unit
  IsGood (some c) = IsAllowed c

  with_option :
      (o : Option ImageCandidate) (cs : List ImageCandidate)
      → IsGood o
      → All IsAllowed cs
      → All IsAllowed (elim o [ none ↦ cs | some c ↦ c ∷ cs ])
  with_option none cs g h = h
  with_option (some c) cs g h = (g, h)

  pub pick-All :
      {R : Type 0} (make : R → Option ImageCandidate)
      → ((r : R) → IsGood (make r))
      → (rs : List R) → All IsAllowed (pick make rs)
  unfolding pick
  pick-All make good [] = tt
  pick-All make good (r ∷ rs) = with_option (make r) _ (good r) (pick-All make good rs)

  pub candidates_from-Allows :
      {R : Type 0} (make : R → Option ImageCandidate)
      → ((r : R) → IsGood (make r))
      → (rs : Attempt (List R)) → Allows (candidates_from make rs)
  unfolding candidates_from
  candidates_from-Allows make good (failure e) = tt
  candidates_from-Allows make good (success rs) = pick-All make good rs

  pub openverse-IsGood : (r : OpenverseResult) → IsGood (Openverse.make r)
  unfolding Openverse.make
  openverse-IsGood r = elim (Bool-cases (is_empty r.url)) [
    | inl e ↦ simp (e) tt
    | inr e ↦ elim (Bool-cases (is_logo_or_banner (to_lower r.url))) [
      | inl l ↦ simp (e, l) tt
      | inr l ↦ simp (e, l) (refl, refl)
    ]
  ]

  pub official-IsGood : (r : PexelsOfficialPhoto) → IsGood (make_official r)
  unfolding make_official
  official-IsGood r = elim (Bool-cases (is_empty r.src.large)) [
    | inl e ↦ simp (e) tt
    | inr e ↦ elim (Bool-cases (is_logo_or_banner (to_lower r.src.large))) [
      | inl l ↦ simp (e, l) tt
      | inr l ↦ simp (e, l) (refl, refl)
    ]
  ]

  pub internal-IsGood : (r : PexelsInternalItem) → IsGood (make_internal r)
  unfolding make_internal
  internal-IsGood r = elim (Bool-cases (is_empty r.attributes.image.download_link)) [
    | inl e ↦ simp (e) tt
    | inr e ↦ elim (Bool-cases (is_logo_or_banner (to_lower r.attributes.image.download_link))) [
      | inl l ↦ simp (e, l) tt
      | inr l ↦ simp (e, l) (refl, refl)
    ]
  ]

  pub ddg-IsGood : (r : DdgImageResult) → IsGood (Ddg.make r)
  unfolding Ddg.make
  ddg-IsGood r = elim (Bool-cases (is_empty r.image)) [
    | inl e ↦ simp (e) tt
    | inr e ↦ elim (Bool-cases (is_logo_or_banner (to_lower r.image))) [
      | inl l ↦ simp (e, l) tt
      | inr l ↦ elim (Bool-cases (is_license_blocked (check_license r.image r.url))) [
        | inl b ↦ simp (e, l, b) tt
        | inr b ↦ simp (e, l, b) (refl, refl)
      ]
    ]
  ]

  pub native-IsGood : (r : NativeResult) → IsGood (Native.make r)
  unfolding Native.make
  native-IsGood r = elim (Bool-cases (is_logo_or_banner (to_lower r.url))) [
    | inl l ↦ simp (l) tt
    | inr l ↦ elim (Bool-cases (is_license_blocked (check_license r.url r.source))) [
      | inl b ↦ simp (l, b) tt
      | inr b ↦ simp (l, b) (refl, refl)
    ]
  ]
