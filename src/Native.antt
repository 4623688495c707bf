-- ===== src/Native.antt =====
-- provider_native.go: the provider that asks the search engines of package `imagesearch`.
use go_imagefy.Prelude.{ℕ, ℤ, Option, some, none, List, if◌then◌else◌}
use go_imagefy.Text.{Text, codes}
use go_imagefy.Platform.{Platform, to_lower}
use go_imagefy.License.{is_license_blocked, check_license}
use go_imagefy.Candidate.{ImageCandidate, is_logo_or_banner}
use go_imagefy.Http.{Io, pure, ◌>>=◌, Context}
use go_imagefy.Config.{SearchProvider, SearchOpts, SearchResult, found}
use go_imagefy.Web.{pick}

abbrev pub native_max_results : ℕ
native_max_results = 10

-- A result of package `imagesearch`, as far as it is read.
pub record NativeResult : Type 0 where
  pub url : Text
  pub thumbnail : Text
  pub source : Text
  pub title : Text
  pub width : ℤ
  pub height : ℤ
  pub engine : Text

-- `MultiSearch.Search`, which returns no error.
abbrev pub MultiSearch : Type 0 → Type 0
MultiSearch W = Context → Text → ℕ → Io W (List NativeResult)

pub record NativeImageProvider (W : Type 0) : Type 0 where
  pub search_all : MultiSearch W

module _ ⦃p : Platform⦄ where
  -- A round of the loop in `Search`.
  unfoldable pub make : NativeResult → Option ImageCandidate
  make r =
      let license = check_license r.url r.source in
      if is_logo_or_banner (to_lower r.url)
      then none
      else if is_license_blocked license
      then none
      else some (record {
        img_url = r.url;
        thumbnail = r.thumbnail;
        source = r.source;
        title = r.title;
        license = license;
        width = r.width;
        height = r.height;
        engine = r.engine;
      })

  module _ {W : Type 0} where
    -- `NativeImageProvider.Search`.
    unfoldable pub search : NativeImageProvider W → Context → Text → SearchOpts → Io W SearchResult
    unfolding make pick
    search prov ctx query opts = do
      results ← prov.search_all ctx query native_max_results
      pure (found (pick make results))

    abbrev pub provider : NativeImageProvider W → SearchProvider W
    provider prov = record {
      name = codes "native";
      search = λ ctx query opts. search prov ctx query opts;
    }
