-- ===== src/Content/Distinct.antt =====
-- No image of a page is collected twice.
use go_imagefy.Prelude.{
  ℕ, zero, suc, ◌+◌, ◌≤◌, false, List, [], ◌∷◌, ◌++◌, take, if◌then◌else◌, ◌||◌, ◌∙◌, ◌≡◌, inl, inr,
  refl, Bool-cases, arith, any, subst, sym,
}
use go_imagefy.Text.{Text, text_eq}
use go_imagefy.Text.Search.{text_eq_iff}
use go_imagefy.Platform.{Platform}
use go_imagefy.Candidate.{ImageCandidate}
use go_imagefy.ImageUrl.{normalize_img_url}
use go_imagefy.ImageTag.{JsonLd}
use go_imagefy.Content.{
  Bucket, priority, normal, jsonld, og_fallback, Buckets, put, was_seen, see, merge, collect,
  images_of, content_max_results,
}
use go_imagefy.Content.Steps.{
  Step, nothing, only_seen, added, Collected, start, next, collect-Collected,
}

-- How many of the candidates have this address, sizes in names left out.
abbrev pub times : Text → List ImageCandidate → ℕ
times norm [] = 0
times norm (c ∷ cs) =
    let rest = times norm cs in
    if text_eq norm (normalize_img_url c.img_url) then suc rest else rest

times-append :
    (norm : Text) (cs ds : List ImageCandidate)
    → times norm (cs ++ ds) ≡ times norm cs + times norm ds
times-append norm [] ds = omega arith
times-append norm (c ∷ cs) ds = ground (arith, times-append norm cs ds)

times-take :
    (norm : Text) (n : ℕ) (cs : List ImageCandidate) → times norm (take n cs) ≤ times norm cs
times-take norm zero cs = omega arith
times-take norm (suc n) [] = omega arith
times-take norm (suc n) (c ∷ cs) = ground (arith, times-take norm n cs)

times-merge :
    (norm : Text) (b : Buckets)
    → times norm (merge b)
      ≡ times norm b.in_priority
        + (times norm b.in_normal + (times norm b.in_jsonld + times norm b.in_og_fallback))
unfolding merge
times-merge norm b = omega (
  arith,
  times-append norm b.in_priority (b.in_normal ++ (b.in_jsonld ++ b.in_og_fallback)),
  times-append norm b.in_normal (b.in_jsonld ++ b.in_og_fallback),
  times-append norm b.in_jsonld b.in_og_fallback,
)

pub times-put :
    (norm : Text) (bucket : Bucket) (c : ImageCandidate) (b : Buckets)
    → times norm (merge (put bucket c b)) ≡ times norm (merge b) + times norm (c ∷ [])
unfolding put
times-put norm priority c b = omega (
  arith,
  times-merge norm b,
  times-merge norm (put priority c b),
  times-append norm b.in_priority (c ∷ []),
)
times-put norm normal c b = omega (
  arith,
  times-merge norm b,
  times-merge norm (put normal c b),
  times-append norm b.in_normal (c ∷ []),
)
times-put norm jsonld c b = omega (
  arith,
  times-merge norm b,
  times-merge norm (put jsonld c b),
  times-append norm b.in_jsonld (c ∷ []),
)
times-put norm og_fallback c b = omega (
  arith,
  times-merge norm b,
  times-merge norm (put og_fallback c b),
  times-append norm b.in_og_fallback (c ∷ []),
)

-- Each address occurs once at most, and only if it was seen.
abbrev pub IsDistinct : Buckets → Type 0
IsDistinct b =
    (norm : Text)
    → (times norm (merge b) ≤ 1) × (was_seen norm b ≡ false → times norm (merge b) ≡ 0)

pub was_seen-put :
    (norm : Text) (bucket : Bucket) (c : ImageCandidate) (b : Buckets)
    → was_seen norm (put bucket c b) ≡ was_seen norm b
unfolding put
was_seen-put norm priority c b = refl
was_seen-put norm normal c b = refl
was_seen-put norm jsonld c b = refl
was_seen-put norm og_fallback c b = refl

see-IsDistinct : (other : Text) (b : Buckets) → IsDistinct b → IsDistinct (see other b)
unfolding any merge
see-IsDistinct other b d norm = ((d norm).0, λ h. (d norm).1 (ground arith))

put-IsDistinct :
    (bucket : Bucket) (c : ImageCandidate) (b : Buckets)
    → was_seen (normalize_img_url c.img_url) b ≡ false
    → IsDistinct b
    → IsDistinct (put bucket c (see (normalize_img_url c.img_url) b))
unfolding any merge
put-IsDistinct bucket c b new d norm =
    let noted = see (normalize_img_url c.img_url) b in
    let counted : times norm (merge (put bucket c noted))
        ≡ times norm (merge b) + times norm (c ∷ []) =
      times-put norm bucket c noted in
    let before : was_seen norm (put bucket c noted) ≡ false
        → (text_eq norm (normalize_img_url c.img_url) || was_seen norm b) ≡ false =
      (λ h. sym (was_seen-put norm bucket c noted) ∙ h) in
    elim (Bool-cases (text_eq norm (normalize_img_url c.img_url))) [
      | inl e ↦
          let same = (text_eq_iff norm _).0 e in
          let zero_times = (d norm).1 (subst (λ n. was_seen n b ≡ false) (sym same) new) in
          let single : times norm (c ∷ []) ≡ 1 = simp (e) refl in
          (omega (arith, counted, zero_times, single), λ h. let f = before h in ground arith)
      | inr e ↦
          let single : times norm (c ∷ []) ≡ 0 = simp (e) refl in
          (
            omega (arith, counted, (d norm).0, single),
            λ h. let f = before h in omega (arith, counted, (d norm).1 (ground arith), single),
          )
    ]

module _ ⦃p : Platform⦄ (page_url query page : Text) (json : JsonLd) where
  Step-IsDistinct :
      {b b' : Buckets} → Step page_url query page json b b' → IsDistinct b → IsDistinct b'
  Step-IsDistinct nothing d = d
  Step-IsDistinct {b} (only_seen raw why) d = see-IsDistinct _ b d
  Step-IsDistinct {b} (added raw title bucket o h s l k) d = put-IsDistinct bucket _ b s d

  pub Collected-IsDistinct : {b : Buckets} → Collected page_url query page json b → IsDistinct b
  unfolding merge any
  Collected-IsDistinct start = λ norm. (omega arith, λ h. refl)
  Collected-IsDistinct (next c s) = Step-IsDistinct s (Collected-IsDistinct c)

  -- No address, sizes in names left out, occurs twice among the images that are taken from a page.
  pub times-images_of-le : (norm : Text) → times norm (images_of page_url json query page) ≤ 1
  unfolding images_of
  times-images_of-le norm =
      let all = merge (collect page_url json query page) in
      omega (
        arith,
        times-take norm content_max_results all,
        (Collected-IsDistinct (collect-Collected page_url query page json) norm).0,
      )
