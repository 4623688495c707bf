-- ===== src/Content/Kept.antt =====
-- No content image of a page is lost before the lists are cut.
use go_imagefy.Prelude.{
  ◌+◌, Bool, true, false, not, ◌||◌, List, [], ◌∷◌, is_empty, if◌then◌else◌, ◌≡◌, ◌⊎◌, inl, inr,
  refl, sym, ◌∙◌, ap, subst, any, Bool-cases, arith,
}
use go_imagefy.Text.{Text, codes, text_eq, has_prefix}
use go_imagefy.Text.Search.{text_eq_iff, text_eq_refl}
use go_imagefy.Platform.{Platform, to_lower}
use go_imagefy.License.{is_license_blocked, check_license}
use go_imagefy.Candidate.{ImageCandidate, is_logo_or_banner}
use go_imagefy.Regexp.{Match, find_all, whole}
use go_imagefy.Regexp.Members.{In, first, later}
use go_imagefy.ImageUrl.{
  normalize_img_url, registrable_domain, slug_tokens_from, is_slug_match, is_content_skip,
}
use go_imagefy.ImageTag.{
  content_img_tag_re, content_src_re, extract_attr, is_tiny_thumbnail, JsonLd,
}
use go_imagefy.Content.{
  Bucket, priority, normal, Buckets, put, was_seen, see, merge, candidate_at, add_if_new, add_tag,
  add_tags, collect,
}
use go_imagefy.Content.Origin.{cleaned, src_of, full_of, IsContentTag}
use go_imagefy.Content.Steps.{
  Drops, Step, nothing, only_seen, added, Collected, start, next, add_tag-Step, collect-Collected,
}
use go_imagefy.Content.Distinct.{times, times-put, was_seen-put, Collected-IsDistinct}

guarded :
    (s : Text)
    → has_prefix s (codes "http") ≡ true
    → (is_empty s || not (has_prefix s (codes "http"))) ≡ false
unfolding has_prefix
guarded [] e = cc
guarded (c ∷ s) e = ground arith

same_host :
    (a host : Text)
    → a ≡ host
    → is_empty host ≡ false
    → (not (text_eq a host) || is_empty host) ≡ false
same_host a host e h = let same = (text_eq_iff a host).1 e in ground arith

module _ ⦃p : Platform⦄ (page_url query page : Text) (json : JsonLd) where
  -- A candidate has the address, or one with that name was dropped.
  abbrev pub Accounts : Buckets → Text → Type 0
  Accounts b norm =
      (times norm (merge b) ≡ 1)
      ⊎ ((raw : Text) × (normalize_img_url (cleaned raw) ≡ norm)
          × Drops page_url query page json raw)

  abbrev IsKept : Buckets → Type 0
  IsKept b = (norm : Text) → was_seen norm b ≡ true → Accounts b norm

  see-IsKept :
      (raw : Text) (b : Buckets)
      → Drops page_url query page json raw
      → IsKept b
      → IsKept (see (normalize_img_url (cleaned raw)) b)
  unfolding any merge
  see-IsKept raw b why k norm h =
      elim (Bool-cases (text_eq norm (normalize_img_url (cleaned raw)))) [
        | inl e ↦ inr (raw, sym ((text_eq_iff norm _).0 e), why)
        | inr e ↦ k norm (ground arith)
      ]

  put-IsKept :
      (bucket : Bucket) (c : ImageCandidate) (b : Buckets)
      → times (normalize_img_url c.img_url) (merge b) ≡ 0
      → IsKept b
      → IsKept (put bucket c (see (normalize_img_url c.img_url) b))
  unfolding any merge
  put-IsKept bucket c b new k norm h =
      let noted = see (normalize_img_url c.img_url) b in
      let counted : times norm (merge (put bucket c noted))
          ≡ times norm (merge b) + times norm (c ∷ []) =
        times-put norm bucket c noted in
      let before : (text_eq norm (normalize_img_url c.img_url) || was_seen norm b) ≡ true =
        sym (was_seen-put norm bucket c noted) ∙ h in
      elim (Bool-cases (text_eq norm (normalize_img_url c.img_url))) [
        | inl e ↦
            let same = (text_eq_iff norm _).0 e in
            let zero_times : times norm (merge b) ≡ 0 =
              subst (λ n. times n (merge b) ≡ 0) (sym same) new in
            let single : times norm (c ∷ []) ≡ 1 = simp (e) refl in
            inl (omega (arith, counted, zero_times, single))
        | inr e ↦
            let single : times norm (c ∷ []) ≡ 0 = simp (e) refl in
            carry (put bucket c noted) (omega (arith, counted, single)) (k norm (ground arith))
      ]
    where
      carry :
          (b' : Buckets)
          → times norm (merge b') ≡ times norm (merge b)
          → Accounts b norm
          → Accounts b' norm
      carry b' e (inl one) = inl (e ∙ one)
      carry b' e (inr dropped) = inr dropped

  Collected-IsKept : {b : Buckets} → Collected page_url query page json b → IsKept b
  unfolding any
  Collected-IsKept start = λ norm h. cc
  Collected-IsKept (next c nothing) = Collected-IsKept c
  Collected-IsKept (next {b} c (only_seen raw why)) = see-IsKept raw b why (Collected-IsKept c)
  Collected-IsKept (next {b} c (added raw title bucket o h s l k)) =
      put-IsKept bucket _ b ((Collected-IsDistinct page_url query page json c _).1 s)
        (Collected-IsKept c)

  -- What was seen stays seen.
  Step-was_seen :
      {b b' : Buckets} (norm : Text)
      → Step page_url query page json b b'
      → was_seen norm b ≡ true
      → was_seen norm b' ≡ true
  unfolding any
  Step-was_seen norm nothing h = h
  Step-was_seen norm (only_seen raw why) h = ground arith
  Step-was_seen {b} norm (added raw title bucket o x s l k) h =
      was_seen-put norm bucket _ (see (normalize_img_url (cleaned raw)) b) ∙ ground arith

  see-was_seen : (norm : Text) (b : Buckets) → was_seen norm (see norm b) ≡ true
  unfolding any
  see-was_seen norm b = ground (arith, text_eq_refl norm)

  -- A web address that is added was seen then.
  add_if_new-was_seen :
      (raw title : Text) (bucket : Bucket) (b : Buckets)
      → has_prefix (cleaned raw) (codes "http") ≡ true
      → was_seen (normalize_img_url (cleaned raw)) (add_if_new page_url raw title bucket b) ≡ true
  unfolding add_if_new
  add_if_new-was_seen raw title bucket b h =
      go (is_empty (cleaned raw) || not (has_prefix (cleaned raw) (codes "http"))) (was_seen norm b)
        (is_logo_or_banner (to_lower (cleaned raw)))
        (is_license_blocked (check_license (cleaned raw) page_url)) (guarded (cleaned raw) h) refl
    where
      norm : Text
      norm = normalize_img_url (cleaned raw)

      c : ImageCandidate
      c = candidate_at page_url (cleaned raw) title

      go :
          (e s l k : Bool)
          → e ≡ false
          → was_seen norm b ≡ s
          → was_seen norm (
              if e
              then b
              else if s
              then b
              else if l
              then see norm b
              else if k
              then see norm b
              else put bucket c (see norm b))
            ≡ true
      go true s l k f h = ground arith
      go false true l k f h = h
      go false false true k f h = see-was_seen norm b
      go false false false true f h = see-was_seen norm b
      go false false false false f h = was_seen-put norm bucket c (see norm b) ∙ see-was_seen norm b

  -- The address of a tag, sizes in names left out.
  abbrev pub norm_of : Match → Text
  norm_of m = normalize_img_url (cleaned (full_of (whole m)))

  abbrev add : Match → Buckets → Buckets
  add m = add_tag page_url (registrable_domain page_url) (slug_tokens_from page_url query) (whole m)

  -- A test that does not hold, and one that may.
  pass :
      (norm : Text) (t : Bool) (b b' : Buckets)
      → t ≡ false
      → was_seen norm b' ≡ true
      → was_seen norm (if t then b else b') ≡ true
  pass norm true b b' f h = cc
  pass norm false b b' f h = h

  either :
      (norm : Text) (t : Bool) (x y : Buckets)
      → was_seen norm x ≡ true
      → was_seen norm y ≡ true
      → was_seen norm (if t then x else y) ≡ true
  either norm true x y h k = h
  either norm false x y h k = k

  add_tag-was_seen :
      (m : Match) (b : Buckets)
      → IsContentTag page_url (whole m)
      → has_prefix (cleaned (full_of (whole m))) (codes "http") ≡ true
      → was_seen (norm_of m) (add m b) ≡ true
  unfolding add_tag
  add_tag-was_seen m b tag h =
      let full = full_of (whole m) in
      let norm = norm_of m in
      let host = registrable_domain page_url in
      pass norm (is_empty (extract_attr content_src_re (whole m))) b _ tag.has_src (
        pass norm (not (has_prefix (src_of (whole m)) (codes "http"))) b _ (ap not tag.is_web) (
          pass norm (not (text_eq (registrable_domain (src_of (whole m))) host) || is_empty host) b
            _ (same_host _ host tag.same_domain tag.domain_known)
            (pass norm (is_content_skip (to_lower (src_of (whole m)))) b _ tag.not_skipped (
              pass norm (is_tiny_thumbnail (whole m) (src_of (whole m))) b _ tag.not_tiny (
                either norm (is_slug_match full (slug_tokens_from page_url query)) _ _
                  (add_if_new-was_seen full (codes "content:img:slug") priority b h)
                  (add_if_new-was_seen full (codes "content:img") normal b h))))))

  add_tags-was_seen :
      (m : Match) (ms : List Match) (b : Buckets)
      → ((n : Match) → In n ms → In n (find_all content_img_tag_re page))
      → In m ms ⊎ (was_seen (norm_of m) b ≡ true)
      → IsContentTag page_url (whole m)
      → has_prefix (cleaned (full_of (whole m))) (codes "http") ≡ true
      → was_seen
          (norm_of m)
          (add_tags page_url (registrable_domain page_url) (slug_tokens_from page_url query) ms b)
        ≡ true
  unfolding add_tags
  add_tags-was_seen m [] b i (inl none) tag h = elim none [ ]
  add_tags-was_seen m [] b i (inr seen) tag h = seen
  add_tags-was_seen m (m' ∷ ms) b i (inl first) tag h =
      add_tags-was_seen m ms _ (λ n j. i n (later j)) (inr (add_tag-was_seen m b tag h)) tag h
  add_tags-was_seen m (m' ∷ ms) b i (inl (later j)) tag h =
      add_tags-was_seen m ms _ (λ n k. i n (later k)) (inl j) tag h
  add_tags-was_seen m (m' ∷ ms) b i (inr seen) tag h =
      add_tags-was_seen m ms _ (λ n k. i n (later k))
        (inr (
          Step-was_seen (norm_of m) (add_tag-Step page_url query page json m' b (i m' first)) seen))
        tag h

  -- Before the lists are cut, the cleaned address of each <img> tag of the page's domain that names
  -- nothing to skip and is not tiny is that of exactly one collected candidate, sizes in names left
  -- out, if it is a web address still and unless an address with that name is a logo or banner or has
  -- a blocked licence.
  pub collect-Accounts :
      (m : Match)
      → In m (find_all content_img_tag_re page)
      → IsContentTag page_url (whole m)
      → has_prefix (cleaned (full_of (whole m))) (codes "http") ≡ true
      → Accounts (collect page_url json query page) (norm_of m)
  unfolding collect
  collect-Accounts m i tag h =
      Collected-IsKept (collect-Collected page_url query page json) (norm_of m)
        (add_tags-was_seen m (find_all content_img_tag_re page) _ (λ n j. j) (inl i) tag h)
