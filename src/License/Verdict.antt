-- ===== src/License/Verdict.antt =====
-- What a verdict of `CheckLicenseWith` means, said without its loops and early returns.
use go_imagefy.Prelude.{
  Bool, true, false, ◌||◌, ◌&&◌, not, Option, some, none, List, [], ◌∷◌, any, is_empty,
  if◌then◌else◌, Any, arith, subst, ◌≡◌, ◌≢◌, ◌↔◌, ◌⊎◌, inl, inr, Option-cases, refl,
}
use go_imagefy.Text.{Text, contains}
use go_imagefy.Text.Search.{Occurs, contains_iff}
use go_imagefy.Platform.{Platform, Url, parse_url, to_lower}
use go_imagefy.License.{
  license_safe, license_blocked, blocked_domains, blocked_url_patterns, safe_domains, extra_match,
  is_blocked_url, is_blocked_with, extract_host, is_safe_with, check_license_with,
}

-- One of the listed texts stands in `s`.
abbrev pub Mentions : Text → List Text → Type 0
Mentions s = Any (λ d. Occurs d s)

-- The same for a caller's list, in which the empty text counts for nothing.
abbrev pub MentionsExtra : Text → List Text → Type 0
MentionsExtra s = Any (λ d. (d ≢ []) × Occurs d s)

any-contains_iff : (s : Text) (ds : List Text) → (any (contains s) ds ≡ true) ↔ Mentions s ds
unfolding any
any-contains_iff s [] = ((λ h. cc), λ h. absurd h)
any-contains_iff s (d ∷ ds) = ground (arith, contains_iff s d, any-contains_iff s ds)

extra_match_iff : (s d : Text) → (extra_match s d ≡ true) ↔ ((d ≢ []) × Occurs d s)
extra_match_iff s [] = ((λ h. cc), λ h. absurd (h.0 refl))
extra_match_iff s (c ∷ d) =
    ((λ h. ((λ e. cc), (contains_iff s (c ∷ d)).0 h)), λ h. (contains_iff s (c ∷ d)).1 h.1)

any-extra_match_iff :
    (s : Text) (ds : List Text) → (any (extra_match s) ds ≡ true) ↔ MentionsExtra s ds
unfolding any
any-extra_match_iff s [] = ((λ h. cc), λ h. absurd h)
any-extra_match_iff s (d ∷ ds) = ground (arith, extra_match_iff s d, any-extra_match_iff s ds)

module _ ⦃p : Platform⦄ where
  -- The host or the path names a stock site.
  abbrev pub NamesStock : Url → List Text → Type 0
  NamesStock url extra =
      ((to_lower url.host ≢ [])
        × (Mentions (to_lower url.host) blocked_domains ⊎ MentionsExtra (to_lower url.host) extra))
      ⊎ Mentions (to_lower url.path) blocked_url_patterns

  -- The host names a free source.
  abbrev pub NamesFree : Url → List Text → Type 0
  NamesFree url extra =
      (to_lower url.host ≢ [])
      × (Mentions (to_lower url.host) safe_domains ⊎ MentionsExtra (to_lower url.host) extra)

  -- The address parses, and names a stock site.
  abbrev pub IsStockUrl : Text → List Text → Type 0
  IsStockUrl raw_url extra =
      (raw_url ≢ []) × ((url : Url) × (parse_url raw_url ≡ some url) × NamesStock url extra)

  -- The address parses, and names a free source.
  abbrev pub IsFreeUrl : Text → List Text → Type 0
  IsFreeUrl raw_url extra = (url : Url) × (parse_url raw_url ≡ some url) × NamesFree url extra

  parsed_iff :
      (o : Option Url) (test : Url → Bool) (Q : Url → Type 0)
      → ((url : Url) → (test url ≡ true) ↔ Q url)
      → (elim o [ none ↦ false | some url ↦ test url ] ≡ true)
        ↔ ((url : Url) × (o ≡ some url) × Q url)
  parsed_iff none test Q h = ((λ e. cc), λ e. cc (e.1))
  parsed_iff (some url) test Q h = (
    (λ e. (url, refl, (h url).0 e)),
    λ e. let same : e.0 ≡ url = cc (e.1) in (h url).1 (subst Q same e.2),
  )

  host_test_iff :
      (host : Text) (ds extra : List Text)
      → ((not (is_empty host) && (any (contains host) ds || any (extra_match host) extra)) ≡ true)
        ↔ ((host ≢ []) × (Mentions host ds ⊎ MentionsExtra host extra))
  host_test_iff [] ds extra = ((λ h. cc), λ h. absurd (h.0 refl))
  host_test_iff (c ∷ host) ds extra =
      ground (arith, any-contains_iff (c ∷ host) ds, any-extra_match_iff (c ∷ host) extra)

  is_blocked_url_iff :
      (url : Url) (extra : List Text) → (is_blocked_url url extra ≡ true) ↔ NamesStock url extra
  unfolding is_blocked_url
  is_blocked_url_iff url extra = ground (
    arith,
    host_test_iff (to_lower url.host) blocked_domains extra,
    any-contains_iff (to_lower url.path) blocked_url_patterns,
  )

  is_blocked_with_iff :
      (u : Text) (extra : List Text) → (is_blocked_with u extra ≡ true) ↔ IsStockUrl u extra
  unfolding is_blocked_with
  is_blocked_with_iff [] extra = ((λ h. cc), λ h. absurd (h.0 refl))
  is_blocked_with_iff (c ∷ u) extra =
      let both =
        parsed_iff (parse_url (c ∷ u)) (λ url. is_blocked_url url extra)
          (λ url. NamesStock url extra) (λ url. is_blocked_url_iff url extra) in
      ((λ h. ((λ e. cc), both.0 h)), λ h. both.1 h.1)

  free_host_iff :
      (host : Text) (extra : List Text)
      → ((if is_empty host
            then false
            else (any (contains host) safe_domains || any (extra_match host) extra))
          ≡ true)
        ↔ ((host ≢ []) × (Mentions host safe_domains ⊎ MentionsExtra host extra))
  free_host_iff [] extra = ((λ h. cc), λ h. absurd (h.0 refl))
  free_host_iff (c ∷ host) extra =
      ground (arith, any-contains_iff (c ∷ host) safe_domains, any-extra_match_iff (c ∷ host) extra)

  is_safe_with_iff :
      (u : Text) (extra : List Text) → (is_safe_with u extra ≡ true) ↔ IsFreeUrl u extra
  unfolding is_safe_with
  is_safe_with_iff u extra = elim (Option-cases (parse_url u)) [
    | inl e ↦ rw (e, is_safe_with, extract_host) ((λ h. cc), λ h. cc (h.1))
    | inr (url, e) ↦
        rw (e, is_safe_with, extract_host)
          (parsed_iff (some url)
            (λ v.
              if is_empty (to_lower v.host)
              then false
              else (any (contains (to_lower v.host)) safe_domains
                  || any (extra_match (to_lower v.host)) extra))
            (λ v. NamesFree v extra) (λ v. free_host_iff (to_lower v.host) extra))
  ]

  -- The verdict is "blocked" exactly when the image's address or its page's names a stock site.
  pub check_license_with-eq-blocked_iff :
      (image_url source_url : Text) (extra_blocked extra_safe : List Text)
      → (check_license_with image_url source_url extra_blocked extra_safe ≡ license_blocked)
        ↔ (IsStockUrl image_url extra_blocked ⊎ IsStockUrl source_url extra_blocked)
  unfolding check_license_with any
  check_license_with-eq-blocked_iff i s eb es =
      ground (arith, is_blocked_with_iff i eb, is_blocked_with_iff s eb)

  -- The verdict is "safe" exactly when neither address names a stock site and one of them names a
  -- free source.
  pub check_license_with-eq-safe_iff :
      (image_url source_url : Text) (extra_blocked extra_safe : List Text)
      → (check_license_with image_url source_url extra_blocked extra_safe ≡ license_safe) ↔ (
          ¬ IsStockUrl image_url extra_blocked
          × ¬ IsStockUrl source_url extra_blocked
          × (IsFreeUrl image_url extra_safe ⊎ IsFreeUrl source_url extra_safe))
  unfolding check_license_with any
  check_license_with-eq-safe_iff i s eb es = ground (
    arith,
    is_blocked_with_iff i eb,
    is_blocked_with_iff s eb,
    is_safe_with_iff i es,
    is_safe_with_iff s es,
  )
