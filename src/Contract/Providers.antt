-- ===== src/Contract/Providers.antt =====
-- The providers of the repository keep the contract.
use go_imagefy.Prelude.{
  Bool, true, false, Option, some, none, List, [], is_empty, if◌then◌else◌, refl, sym, subst, All,
  All-append, All-map, All-take, inl, inr, Bool-cases,
}
use go_imagefy.Text.{Text}
use go_imagefy.Platform.{Platform, to_lower}
use go_imagefy.License.{is_license_blocked, check_license}
use go_imagefy.Candidate.{ImageCandidate, is_logo_or_banner}
use go_imagefy.Http.{Io, pure, ◌>>=◌, read_limited, send_built, Request, Response, Context, Client}
use go_imagefy.Config.{SearchResult, found, failed, client_or, bad_request, read_failed, bad_json}
use go_imagefy.Web.{Codec, Attempt, success, failure}
use go_imagefy.Contract.{IsAllowed, Allows, IsLawful}
use go_imagefy.Contract.Makers.{
  candidates_from-Allows, pick-All, openverse-IsGood, ddg-IsGood, native-IsGood,
}
use go_imagefy.Searxng
use go_imagefy.Searxng.{searxng_body_limit, SearxngResult, SearxngProvider}
use go_imagefy.Searxng.Filter.{Filtered, done, keep, skip, filter-Filtered}
use go_imagefy.Openverse
use go_imagefy.Openverse.{OpenverseResult, OpenverseProvider}
use go_imagefy.Ddg
use go_imagefy.Ddg.{DdgImageResult, DdgImageProvider, with_note, search_with}
use go_imagefy.Native
use go_imagefy.Native.{NativeImageProvider}
use go_imagefy.Og
use go_imagefy.Og.{fetch_og, OgImageProvider}
use go_imagefy.Content
use go_imagefy.Content.{
  Bucket, priority, normal, jsonld, og_fallback, fetch_page, ContentImageProvider,
  content_max_results,
}
use go_imagefy.Content.Ranked.{images_of-AreRanked, IsOf}
use go_imagefy.ImageTag.{JsonLd}

module _ ⦃p : Platform⦄ {W : Type 0} (default_client : Client W) where
  Filtered-All :
      {rs : List SearxngResult} {cs : List ImageCandidate} → Filtered rs cs → All IsAllowed cs
  Filtered-All done = tt
  Filtered-All (keep h f) = ((h.is_image, h.not_blocked), Filtered-All f)
  Filtered-All (skip n f) = Filtered-All f

  pub openverse-IsLawful :
      (codec : Codec OpenverseResult) (prov : OpenverseProvider W)
      → IsLawful (Openverse.provider codec default_client prov)
  unfolding Openverse.search
  openverse-IsLawful codec prov ctx query opts w =
      candidates_from-Allows Openverse.make openverse-IsGood _

  search_with-Allows :
      (codec : Codec DdgImageResult) (prov : DdgImageProvider W) (ctx : Context) (query : Text)
      (token : Attempt Text) (w : W)
      → Allows (search_with codec default_client prov ctx query token w).0
  unfolding search_with
  search_with-Allows codec prov ctx query (failure e) w = tt
  search_with-Allows codec prov ctx query (success token) w =
      candidates_from-Allows Ddg.make ddg-IsGood _

  pub ddg-IsLawful :
      (codec : Codec DdgImageResult) (prov : DdgImageProvider W)
      → IsLawful (Ddg.provider codec default_client prov)
  unfolding Ddg.search
  ddg-IsLawful codec prov ctx query opts w = search_with-Allows codec prov ctx query _ _

  pub native-IsLawful : (prov : NativeImageProvider W) → IsLawful (Native.provider prov)
  unfolding Native.search
  native-IsLawful prov ctx query opts w = pick-All Native.make native-IsGood _

  abbrev AllowsIo : Io W SearchResult → Type 0
  AllowsIo m = (w : W) → Allows (m w).0

  either :
      (t : Bool) (x y : SearchResult × W) → Allows x.0 → Allows y.0 → Allows (if t then x else y).0
  either true x y h g = h
  either false x y h g = g

  og_candidates-All : (page_url img_url : Text) → All IsAllowed (Og.candidates_of page_url img_url)
  unfolding Og.candidates_of
  og_candidates-All page_url img_url = elim (Bool-cases (is_empty img_url)) [
    | inl e ↦ simp (e) tt
    | inr e ↦ elim (Bool-cases (is_logo_or_banner (to_lower img_url))) [
      | inl l ↦ simp (e, l) tt
      | inr l ↦ elim (Bool-cases (is_license_blocked (check_license img_url page_url))) [
        | inl b ↦ simp (e, l, b) tt
        | inr b ↦ simp (e, l, b) ((refl, refl), tt)
      ]
    ]
  ]

  pub og-IsLawful : (prov : OgImageProvider W) → IsLawful (Og.provider default_client prov)
  unfolding Og.search
  og-IsLawful prov ctx query opts w =
      let page = fetch_og default_client prov ctx opts.page_url w in
      either (is_empty opts.page_url) (found [], w)
        (found (Og.candidates_of opts.page_url page.0), page.1) tt
        (og_candidates-All opts.page_url page.0)

  images_of-All :
      (json : JsonLd) (page_url query page : Text)
      → All IsAllowed (Content.images_of page_url json query page)
  images_of-All json page_url query page =
      let (b, (a1, a2, a3, a4), e) = images_of-AreRanked page_url query page json in
      subst (All IsAllowed) (sym e) (
        All-take _ content_max_results _ (
          All-append _ b.in_priority _ (own priority b.in_priority a1) (
            All-append _ b.in_normal _ (own normal b.in_normal a2) (
              All-append _ b.in_jsonld _ (own jsonld b.in_jsonld a3)
                (own og_fallback b.in_og_fallback a4)))))
    where
      own :
          (bucket : Bucket) (cs : List ImageCandidate)
          → All (IsOf page_url query page json bucket) cs
          → All IsAllowed cs
      own bucket cs h = All-map _ IsAllowed (λ c k. (k.3, k.5)) cs h

  pub content-IsLawful :
      (json : JsonLd) (prov : ContentImageProvider W)
      → IsLawful (Content.provider json default_client prov)
  unfolding Content.search
  content-IsLawful json prov ctx query opts w =
      let page = fetch_page json default_client prov ctx opts.page_url w in
      let images : SearchResult × W =
        (found (Content.images_of opts.page_url json query page.0), page.1) in
      either (is_empty opts.page_url) (found [], w)
        (if is_empty page.0 then (found [], page.1) else images) tt
        (either (is_empty page.0) (found [], page.1) images tt
          (images_of-All json opts.page_url query page.0))

  answer-Allows :
      (codec : Codec SearxngResult) (reply : Option Response)
      → Allows (Searxng.read_answer codec reply)
  unfolding Searxng.read_answer
  answer-Allows codec none = tt
  answer-Allows codec (some resp) =
      elim (read_limited searxng_body_limit resp)
        as (λ o. Allows (elim o [
          | none ↦ failed read_failed
          | some body ↦ elim (codec.unmarshal body) [
            | none ↦ failed bad_json
            | some results ↦ found (Searxng.filter results)
          ]
        ])) [ none ↦ tt | some body ↦ decoded (codec.unmarshal body) ]
    where
      decoded :
          (o : Option (List SearxngResult))
          → Allows
              (elim o [ none ↦ failed bad_json | some results ↦ found (Searxng.filter results) ])
      decoded none = tt
      decoded (some results) = Filtered-All (filter-Filtered results)

  pub searxng-IsLawful :
      (codec : Codec SearxngResult) (prov : SearxngProvider W)
      → IsLawful (Searxng.provider codec default_client prov)
  unfolding Searxng.search
  searxng-IsLawful codec prov ctx query opts w = sent _ w
    where
      sent :
          (o : Option Request)
          → AllowsIo (elim o [
            | none ↦ pure (failed bad_request)
            | some req ↦ do
              reply ← send_built (client_or prov.http_client default_client) (some req)
              pure (Searxng.read_answer codec reply)
          ])
      sent none w = tt
      sent (some req) w = answer-Allows codec _
