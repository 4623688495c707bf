-- ===== src/Contract/Library.antt =====
-- The Pexels provider keeps the contract, whichever of its two APIs answers.
use go_imagefy.Prelude.{Bool, true, false, not, is_empty, if◌then◌else◌}
use go_imagefy.Text.{Text}
use go_imagefy.Platform.{Platform}
use go_imagefy.Http.{Io, pure, Context, Client}
use go_imagefy.Config.{SearchOpts, SearchResult, found, failed, no_api_key}
use go_imagefy.Web.{Codec}
use go_imagefy.Contract.{Allows, IsLawful}
use go_imagefy.Contract.Makers.{candidates_from-Allows, official-IsGood, internal-IsGood}
use go_imagefy.Pexels
use go_imagefy.Pexels.{
  make_official, make_internal, PexelsOfficialPhoto, PexelsInternalItem, PexelsProvider,
  search_official, search_internal, second_try, or_second, official_url, internal_url,
}

module _ ⦃p : Platform⦄ {W : Type 0} (default_client : Client W) where
  abbrev AllowsIo : Io W SearchResult → Type 0
  AllowsIo m = (w : W) → Allows (m w).0

  either_io :
      (t : Bool) (m k : Io W SearchResult) → AllowsIo m → AllowsIo k → AllowsIo (if t then m else k)
  either_io true m k h g = h
  either_io false m k h g = g

  module _ (official : Codec PexelsOfficialPhoto) (internal : Codec PexelsInternalItem)
      (prov : PexelsProvider W) (ctx : Context) (query : Text) (opts : SearchOpts) where
    official-AllowsIo :
        (base : Text)
        → AllowsIo (search_official official internal default_client prov ctx base query opts)
    unfolding search_official
    official-AllowsIo base w = candidates_from-Allows make_official official-IsGood _

    internal-AllowsIo :
        (base : Text)
        → AllowsIo (search_internal official internal default_client prov ctx base query opts)
    unfolding search_internal
    internal-AllowsIo base w = candidates_from-Allows make_internal internal-IsGood _

    second_try-AllowsIo : AllowsIo (second_try official internal default_client prov ctx query opts)
    unfolding second_try
    second_try-AllowsIo =
        either_io (not (is_empty prov.secret_key))
          (search_internal official internal default_client prov ctx (internal_url prov) query opts)
          _ (internal-AllowsIo (internal_url prov))
          (either_io (not (is_empty prov.api_key))
            (search_official official internal default_client prov ctx (official_url prov) query
              opts)
            (pure (failed no_api_key)) (official-AllowsIo (official_url prov)) (λ w. tt))

    or_second-AllowsIo :
        (first : SearchResult) (later : Io W SearchResult)
        → Allows first
        → AllowsIo later
        → AllowsIo (or_second official internal default_client first later)
    or_second-AllowsIo (found cs) later h k = λ w. h
    or_second-AllowsIo (failed e) later h k = k

    pexels-AllowsIo : AllowsIo (Pexels.search official internal default_client prov ctx query opts)
    unfolding Pexels.search
    pexels-AllowsIo =
        let later = second_try official internal default_client prov ctx query opts in
        either_io (not (is_empty prov.api_key))
          (λ w.
            let first =
              search_official official internal default_client prov ctx (official_url prov) query
                opts w in
            or_second official internal default_client first.0 later first.1)
          later
          (λ w.
            or_second-AllowsIo
              (search_official official internal default_client prov ctx (official_url prov) query
                opts w).0
              later (official-AllowsIo (official_url prov) w) second_try-AllowsIo
              (search_official official internal default_client prov ctx (official_url prov) query
                opts w).1)
          second_try-AllowsIo

  pub pexels-IsLawful :
      (official : Codec PexelsOfficialPhoto) (internal : Codec PexelsInternalItem)
      (prov : PexelsProvider W)
      → IsLawful (Pexels.provider official internal default_client prov)
  pexels-IsLawful official internal prov ctx query opts w =
      pexels-AllowsIo official internal prov ctx query opts w
