-- ===== src/Candidate.antt =====
-- `ImageCandidate` of search.go, and the two cheap tests on a candidate: patterns.go and
-- prefilter.go.
use go_imagefy.Prelude.{ℤ, Bool, true, false, List, [], ◌∷◌, any}
use go_imagefy.Text.{Text, codes, contains}
use go_imagefy.License.{ImageLicense, license_safe, license_unknown, license_blocked}
use go_imagefy.Classes.{class_photo}

pub record ImageCandidate : Type 0 where
  pub img_url : Text
  pub thumbnail : Text
  pub source : Text
  pub title : Text
  pub license : ImageLicense
  pub width : ℤ
  pub height : ℤ
  pub engine : Text

unfoldable pub logo_banner_patterns : List Text
logo_banner_patterns =
    codes "favicon"
    ∷ codes "logo"
    ∷ codes "icon"
    ∷ codes "banner"
    ∷ codes "sprite"
    ∷ codes "badge"
    ∷ codes "button"
    ∷ codes "widget"
    ∷ codes "avatar"
    ∷ []

-- `IsLogoOrBanner`, on a lower-cased address.
unfoldable pub is_logo_or_banner : Text → Bool
is_logo_or_banner low = any (contains low) logo_banner_patterns

-- `PreClassify`.
unfoldable pub pre_classify : ImageCandidate → Text × Bool
pre_classify cand = elim cand.license [
  | license_safe ↦ (class_photo, true)
  | license_unknown ↦ ([], false)
  | license_blocked ↦ ([], false)
]
