-- ===== src/Searxng/Filter.antt =====
-- Which results of a SearXNG instance become candidates.
use go_imagefy.Prelude.{false, List, [], ◌∷◌, is_empty, ◌≡◌, inl, inr, Bool-cases}
use go_imagefy.Platform.{Platform, to_lower}
use go_imagefy.License.{is_license_blocked, check_license}
use go_imagefy.Candidate.{ImageCandidate, is_logo_or_banner}
use go_imagefy.Searxng.{SearxngResult, candidate_of, filter}

module _ ⦃p : Platform⦄ where
  -- A result that the filter lets pass: it has an address, which is not that of a logo or banner,
  -- and whose licence is not a blocked one.
  pub record Passes (r : SearxngResult) : Type 0 where
    pub has_address : is_empty r.img_src ≡ false
    pub is_image : is_logo_or_banner (to_lower r.img_src) ≡ false
    pub not_blocked : is_license_blocked (check_license r.img_src r.url) ≡ false

  -- The candidate of a result, with the licence of its address and page.
  abbrev pub made_of : SearxngResult → ImageCandidate
  made_of r = candidate_of r (check_license r.img_src r.url)

  -- The results that pass, in their order, and no others.
  pub data Filtered : List SearxngResult → List ImageCandidate → Type 0 where
    done : Filtered [] []
    keep :
        {r : SearxngResult} {rs : List SearxngResult} {cs : List ImageCandidate}
        → Passes r
        → Filtered rs cs
        → Filtered (r ∷ rs) (made_of r ∷ cs)
    skip :
        {r : SearxngResult} {rs : List SearxngResult} {cs : List ImageCandidate}
        → (Passes r → ⊥)
        → Filtered rs cs
        → Filtered (r ∷ rs) cs

  -- The filter keeps exactly the results that have an address, are no logo or banner and are not
  -- blocked, in their order, each with the licence of its address and page.
  pub filter-Filtered : (rs : List SearxngResult) → Filtered rs (filter rs)
  unfolding filter
  filter-Filtered [] = done
  filter-Filtered (r ∷ rs) =
      let rest = filter-Filtered rs in
      elim (Bool-cases (is_empty r.img_src)) [
        | inl e ↦ simp (e) (skip (λ h. cc) rest)
        | inr e ↦ elim (Bool-cases (is_logo_or_banner (to_lower r.img_src))) [
          | inl l ↦ simp (e, l) (skip (λ h. cc) rest)
          | inr l ↦ elim (Bool-cases (is_license_blocked (check_license r.img_src r.url))) [
            | inl b ↦ simp (e, l, b) (skip (λ h. cc) rest)
            | inr b ↦
                simp (e, l, b)
                  (keep (record { has_address = e; is_image = l; not_blocked = b }) rest)
          ]
        ]
      ]
