-- ===== src/Contract.antt =====
-- What the callers of a `SearchProvider` (provider.go) count on: every candidate that it returns has
-- passed the cheap tests on its address and licence.
pub mod Makers
pub mod Library
pub mod Providers
pub mod Searches
pub mod Builtin
use go_imagefy.Prelude.{false, List, ◌≡◌, All}
use go_imagefy.Text.{Text}
use go_imagefy.Platform.{Platform, to_lower}
use go_imagefy.License.{is_license_blocked}
use go_imagefy.Candidate.{ImageCandidate, is_logo_or_banner}
use go_imagefy.Http.{Context}
use go_imagefy.Config.{SearchProvider, SearchOpts, SearchResult}
use go_imagefy.Search.{candidates_of}

module _ ⦃p : Platform⦄ where
  -- The address is not that of a logo or banner, and the licence is not a blocked one.
  abbrev pub IsAllowed : ImageCandidate → Type 0
  IsAllowed c =
      (is_logo_or_banner (to_lower c.img_url) ≡ false) × (is_license_blocked c.license ≡ false)

  abbrev pub Allows : SearchResult → Type 0
  Allows r = All IsAllowed (candidates_of r)

  -- Whatever is asked for, in every world.
  abbrev pub IsLawful : {W : Type 0} → SearchProvider W → Type 0
  IsLawful {W} q =
      (ctx : Context) (query : Text) (opts : SearchOpts) (w : W)
      → Allows (q.search ctx query opts w).0
