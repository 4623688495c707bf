-- ===== src/License/Extras.antt =====
-- How the caller's extra domain lists change a verdict.
use go_imagefy.Prelude.{
  true, false, List, [], ◌∷◌, ◌++◌, ℕ, ◌≤◌, any, Any, All, any-append, arith, subst, ◌≡◌, inl, inr,
  Option-cases, Bool-cases, refl,
}
use go_imagefy.Text.{Text, contains}
use go_imagefy.Text.Search.{contains_iff}
use go_imagefy.Platform.{Platform, parse_url, to_lower, lower}
use go_imagefy.License.{
  license_blocked, extra_match, is_blocked_url, is_blocked_with, check_license_with, check_license,
}

-- An ASCII capital letter.
abbrev pub IsCapital : ℕ → Type 0
IsCapital c = (b'A' ≤ c) × (c ≤ b'Z')

module _ ⦃p : Platform⦄ where
  is_blocked_with-append :
      (u : Text) (extra more : List Text)
      → is_blocked_with u extra ≡ true
      → is_blocked_with u (extra ++ more) ≡ true
  unfolding is_blocked_with is_blocked_url
  is_blocked_with-append [] extra more h = cc
  is_blocked_with-append (c ∷ u) extra more h = elim (Option-cases (parse_url (c ∷ u))) [
    | inl e ↦ ground arith
    | inr (url, e) ↦ ground (arith, any-append (extra_match (to_lower url.host)) extra more)
  ]

  -- More extra blocked domains never lift a block, and no extra safe domain does.
  pub blocked_mono :
      (image_url source_url : Text) (extra_blocked more extra_safe other_safe : List Text)
      → check_license_with image_url source_url extra_blocked extra_safe ≡ license_blocked
      → check_license_with image_url source_url (extra_blocked ++ more) other_safe ≡ license_blocked
  unfolding check_license_with any
  blocked_mono i s eb more es os h =
      ground (arith, is_blocked_with-append i eb more, is_blocked_with-append s eb more)

  -- So what the built-in lists block stays blocked whatever the caller configures.
  pub check_license-blocked_stays :
      (image_url source_url : Text) (extra_blocked extra_safe : List Text)
      → check_license image_url source_url ≡ license_blocked
      → check_license_with image_url source_url extra_blocked extra_safe ≡ license_blocked
  unfolding check_license
  check_license-blocked_stays i s eb es h = blocked_mono i s [] eb [] es h

Any-absurd : (d : Text) → All (λ c. ¬ IsCapital c) d → Any IsCapital d → ⊥
Any-absurd [] _ e = elim e [ ]
Any-absurd (c ∷ d) (h, hs) (inl e) = h e
Any-absurd (c ∷ d) (h, hs) (inr e) = Any-absurd d hs e

All-part :
    (before d after : Text)
    → All (λ c. ¬ IsCapital c) (before ++ (d ++ after))
    → All (λ c. ¬ IsCapital c) d
All-part [] [] after h = tt
All-part [] (c ∷ d) after (h, hs) = (h, All-part [] d after hs)
All-part (b ∷ before) d after (h, hs) = All-part before d after hs

-- The case table gives no ASCII capital, as `unicode.ToLower` documents.
abbrev pub LowersCapitals : Platform → Type 0
LowersCapitals p = (c : ℕ) → ¬ IsCapital (p.lower_table c)

module _ ⦃p : Platform⦄ (table : LowersCapitals p) where
  lower-IsCapital : (c : ℕ) → ¬ IsCapital (lower c)
  unfolding lower
  lower-IsCapital c h = ground (arith, table c)

  to_lower-IsCapital : (s : Text) → All (λ c. ¬ IsCapital c) (to_lower s)
  unfolding to_lower
  to_lower-IsCapital [] = tt
  to_lower-IsCapital (c ∷ s) = (lower-IsCapital c, to_lower-IsCapital s)

  extra_match_capital : (host d : Text) → Any IsCapital d → extra_match (to_lower host) d ≡ false
  extra_match_capital host d capital = elim (Bool-cases (contains (to_lower host) d)) [
    | inl found ↦
        let (before, after, e) = (contains_iff (to_lower host) d).0 found in
        let clean = subst (All (λ c. ¬ IsCapital c)) e (to_lower-IsCapital host) in
        absurd (Any-absurd d (All-part before d after clean) capital)
    | inr missed ↦ ground arith
  ]

  is_blocked_with_capital :
      (u d : Text) (before after : List Text)
      → Any IsCapital d
      → is_blocked_with u (before ++ d ∷ after) ≡ is_blocked_with u (before ++ after)
  unfolding is_blocked_with is_blocked_url any
  is_blocked_with_capital [] d before after capital = refl
  is_blocked_with_capital (c ∷ u) d before after capital = elim (Option-cases (parse_url (c ∷ u))) [
    | inl e ↦ ground arith
    | inr (url, e) ↦ ground (
      arith,
      extra_match_capital url.host d capital,
      any-append (extra_match (to_lower url.host)) before (d ∷ after),
      any-append (extra_match (to_lower url.host)) before after,
    )
  ]

  -- For a case table that gives no ASCII capital, an entry of the extra blocked domains that is
  -- written with one can be left out without changing the verdict of `CheckLicenseWith`.
  pub capital_extra_ignored :
      (image_url source_url d : Text) (before after extra_safe : List Text)
      → Any IsCapital d
      → check_license_with image_url source_url (before ++ d ∷ after) extra_safe
        ≡ check_license_with image_url source_url (before ++ after) extra_safe
  unfolding check_license_with any
  capital_extra_ignored i s d before after es capital = rw (
    is_blocked_with_capital i d before after capital,
    is_blocked_with_capital s d before after capital,
  )
