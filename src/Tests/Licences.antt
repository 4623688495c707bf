-- ===== src/Tests/Licences.antt =====
-- Licences of addresses, and their assessment, at concrete inputs.
use go_imagefy.Prelude.{none, [], ◌∷◌, true, ◌≡◌, ◌↔◌, ◌⊎◌, inl, arith}
use go_imagefy.Text.{Text, codes}
use go_imagefy.License.{license_safe, license_blocked, check_license_with}
use go_imagefy.License.Verdict.{
  IsStockUrl, IsFreeUrl, check_license_with-eq-blocked_iff, check_license_with-eq-safe_iff,
}
use go_imagefy.License.Extras.{LowersCapitals, capital_extra_ignored}
use go_imagefy.Assessment.{assess_license}
use go_imagefy.Assessment.Verdict.{
  HasAddress, Reclassifies, assess_license-eq-blocked_iff, assess_license-eq-safe_iff,
}
use go_imagefy.Metadata.{is_stock_by_metadata, is_cc_by_metadata}
use go_imagefy.Tests.World.{ascii, photo}

abbrev stock_url : Text
stock_url = codes "www.shutterstock.com/x.jpg"

check_license_with-eq-blocked_iff_example :
    (check_license_with stock_url (codes "unsplash.com/y") [] [] ≡ license_blocked)
    ↔ (IsStockUrl stock_url [] ⊎ IsStockUrl (codes "unsplash.com/y") [])
check_license_with-eq-blocked_iff_example =
    check_license_with-eq-blocked_iff stock_url (codes "unsplash.com/y") [] []

check_license_with-eq-safe_iff_example :
    (check_license_with stock_url (codes "unsplash.com/y") [] [] ≡ license_safe) ↔ (
      ¬ IsStockUrl stock_url []
      × ¬ IsStockUrl (codes "unsplash.com/y") []
      × (IsFreeUrl stock_url [] ⊎ IsFreeUrl (codes "unsplash.com/y") []))
check_license_with-eq-safe_iff_example =
    check_license_with-eq-safe_iff stock_url (codes "unsplash.com/y") [] []

ascii-LowersCapitals : LowersCapitals ascii
ascii-LowersCapitals c h = ground arith

capital_extra_ignored_example :
    check_license_with
      (codes "Agency.com/x.jpg")
      []
      (codes "other.org" ∷ codes "Agency" ∷ codes "third.org" ∷ [])
      []
    ≡ check_license_with
        (codes "Agency.com/x.jpg")
        []
        (codes "other.org" ∷ codes "third.org" ∷ [])
        []
capital_extra_ignored_example =
    capital_extra_ignored ascii-LowersCapitals (codes "Agency.com/x.jpg") [] (codes "Agency")
      (codes "other.org" ∷ []) (codes "third.org" ∷ []) [] (inl (omega arith, omega arith))

assess_license-eq-blocked_iff_example :
    ((assess_license [] [] photo none).license ≡ license_blocked) ↔ (
      (HasAddress photo × (photo.license ≡ license_blocked))
      ⊎ (Reclassifies [] [] photo license_blocked ⊎ (is_stock_by_metadata none ≡ true)))
assess_license-eq-blocked_iff_example = assess_license-eq-blocked_iff [] [] photo none

assess_license-eq-safe_iff_example : ((assess_license [] [] photo none).license ≡ license_safe) ↔ (
    ¬ (
      (HasAddress photo × (photo.license ≡ license_blocked))
      ⊎ (Reclassifies [] [] photo license_blocked ⊎ (is_stock_by_metadata none ≡ true)))
    × ((HasAddress photo × (photo.license ≡ license_safe))
        ⊎ (Reclassifies [] [] photo license_safe ⊎ (is_cc_by_metadata none ≡ true))))
assess_license-eq-safe_iff_example = assess_license-eq-safe_iff [] [] photo none
