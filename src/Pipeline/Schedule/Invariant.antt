-- ===== src/Pipeline/Schedule/Invariant.antt =====
-- What holds after every interleaving of the goroutines.
use go_imagefy.Prelude.{
  ◌≤◌, ℤ, pos, to_ℕ, ltb_ℤ, true, false, Option, some, none, List, [], ◌∷◌, ◌++◌, length, ◌≡◌, inl,
  inr, subst, sym, arith, All, Any, All-append, All-at, All-remove, All-replace, length-around,
  length-append, Bool-cases,
}
use go_imagefy.Platform.{Platform}
use go_imagefy.Candidate.{ImageCandidate}
use go_imagefy.Http.{Context}
use go_imagefy.Config.{Config}
use go_imagefy.Config.Environment.{Environment}
use go_imagefy.Dedup.Distinct.{AreApart, is_duplicate-AreApart}
use go_imagefy.Validate.{validate_image_url}
use go_imagefy.Pipeline.{
  Downloaded, names_extra_domain, download_for_validation, fetch, dedup, judge, append_validated,
}
use go_imagefy.Pipeline.Verdicts.{fetch_sound}
use go_imagefy.Pipeline.Schedule.{
  validation_semaphore, Task, running, fetched, fresh, passed, Machine, Step, spawn, stop, acquire,
  dropped, download, duplicate, unique, reject, accept, append, drift,
}

append_validated-le :
    (vs : List ImageCandidate) (c : ImageCandidate) (n : ℤ)
    → length vs ≤ to_ℕ n
    → length (append_validated vs c n) ≤ to_ℕ n
unfolding append_validated
append_validated-le vs c n h = ground (arith, length-append vs (c ∷ []))

pub append_validated-All :
    (P : ImageCandidate → Type 0) (vs : List ImageCandidate) (c : ImageCandidate) (n : ℤ)
    → All P vs
    → P c
    → All P (append_validated vs c n)
unfolding append_validated
append_validated-All P vs c n h pc = elim (Bool-cases (ltb_ℤ (pos (length vs)) n)) [
  | inl e ↦ rw e (All-append P vs (c ∷ []) h (pc, tt))
  | inr e ↦ rw e h
]

length-ended :
    {Img : Type 0} {active : List (Task Img)} (before after : List (Task Img)) (t : Task Img)
    → active ≡ before ++ t ∷ after
    → length active ≤ validation_semaphore
    → length (before ++ after) ≤ validation_semaphore
length-ended before after t e h =
    omega (arith, length-around before after t, subst (λ l. length l ≤ validation_semaphore) e h)

length-moved :
    {Img : Type 0} {active : List (Task Img)} (before after : List (Task Img)) (t u : Task Img)
    → active ≡ before ++ t ∷ after
    → length active ≤ validation_semaphore
    → length (before ++ u ∷ after) ≤ validation_semaphore
length-moved before after t u e h = omega (
  arith,
  length-around before after t,
  length-around before after u,
  subst (λ l. length l ≤ validation_semaphore) e h,
)

module _ {W Img Hash F : Type 0} (env : Environment W Img Hash F) ⦃p : Platform⦄ (cfg : Config W F)
    (ctx : Context) (max_results : ℤ) where
  pub Step-bounded :
      {m n : Machine W Img Hash}
      → Step env cfg ctx max_results m n
      → length m.validated ≤ to_ℕ max_results
      → length n.validated ≤ to_ℕ max_results
  Step-bounded (spawn c cs e f) h = h
  Step-bounded (append before after c e) h = append_validated-le _ c max_results h
  Step-bounded _ h = h

  pub Step-few :
      {m n : Machine W Img Hash}
      → Step env cfg ctx max_results m n
      → length m.active ≤ validation_semaphore
      → length n.active ≤ validation_semaphore
  Step-few (spawn c cs e f) h = h
  Step-few (stop c cs e f) h = h
  Step-few (acquire before after c e lt) h = lt
  Step-few (dropped before after c e f) h = length-ended before after (running c) e h
  Step-few (download before after c d e f) h = length-moved before after (running c) _ e h
  Step-few (duplicate before after c d e f) h = length-ended before after (fetched c d) e h
  Step-few (unique before after c d e f) h = length-moved before after (fetched c d) _ e h
  Step-few (reject before after c d e f) h = length-ended before after (fresh c d) e h
  Step-few (accept before after c d e f) h = length-moved before after (fresh c d) _ e h
  Step-few (append before after c e) h = length-ended before after (passed c) e h
  Step-few (drift w) h = h

  dedup-AreApart :
      (hs : List Hash) (img : Option Img)
      → AreApart env.hashing hs
      → AreApart env.hashing (dedup env cfg ctx hs img).1
  unfolding dedup
  dedup-AreApart hs none h = h
  dedup-AreApart hs (some img) h = is_duplicate-AreApart env.hashing hs img h

  pub Step-AreApart :
      {m n : Machine W Img Hash}
      → Step env cfg ctx max_results m n
      → AreApart env.hashing m.hashes
      → AreApart env.hashing n.hashes
  Step-AreApart (spawn c cs e f) h = h
  Step-AreApart (duplicate before after c d e f) h = dedup-AreApart _ d.image h
  Step-AreApart (unique before after c d e f) h = dedup-AreApart _ d.image h
  Step-AreApart _ h = h

  -- The address of the candidate passed the probe in some world, no extra blocked domain blocks it or
  -- its page, and what `downloadForValidation` gave in the world that the probe left behind was
  -- accepted by the judgement, in some world. A download that fails gives no bytes, and is judged.
  abbrev pub IsAccepted : ImageCandidate → Type 0
  IsAccepted c =
      (names_extra_domain cfg.extra_blocked_domains c ≡ false)
      × ((w : W) × ((validate_image_url env cfg ctx c.img_url w).0 ≡ true)
          × ((later : W) × ((judge env cfg ctx c
                  (download_for_validation env cfg ctx c.img_url
                    (validate_image_url env cfg ctx c.img_url w).1).0
                  later).0
                ≡ true)))

  fetched-IsAccepted :
      (c : ImageCandidate) (d : Downloaded Img) (w later : W)
      → (fetch env cfg ctx c w).0 ≡ some d
      → (judge env cfg ctx c d later).0 ≡ true
      → IsAccepted c
  fetched-IsAccepted c d w later e ok =
      let (valid, other, same) = fetch_sound env cfg ctx c w d e in
      (
        other,
        (w, valid, (later, subst (λ x. (judge env cfg ctx c x later).0 ≡ true) (sym same) ok)),
      )

  module _ (input : List ImageCandidate) where
    abbrev pub IsInput : ImageCandidate → Type 0
    IsInput c = Any (λ x. x ≡ c) input

    -- What is known of a goroutine at each stage.
    abbrev pub IsGenuine : Task Img → Type 0
    IsGenuine (running c) = IsInput c
    IsGenuine (fetched c d) = IsInput c × ((w : W) × ((fetch env cfg ctx c w).0 ≡ some d))
    IsGenuine (fresh c d) = IsInput c × ((w : W) × ((fetch env cfg ctx c w).0 ≡ some d))
    IsGenuine (passed c) = IsInput c × IsAccepted c

    abbrev pub IsResult : ImageCandidate → Type 0
    IsResult c = IsInput c × IsAccepted c

    pub record Sound (m : Machine W Img Hash) : Type 0 where
      pub waiting : All IsInput m.waiting
      pub queued : All IsInput m.queued
      pub active : All IsGenuine m.active
      pub validated : All IsResult m.validated

    module _ {m : Machine W Img Hash} (v : Sound m) where
      around :
          (before after : List (Task Img)) (t : Task Img)
          → m.active ≡ before ++ t ∷ after
          → All IsGenuine (before ++ t ∷ after)
      around before after t e = subst (All IsGenuine) e v.active

      ended :
          (before after : List (Task Img)) (t : Task Img)
          → m.active ≡ before ++ t ∷ after
          → All IsGenuine (before ++ after)
      ended before after t e = All-remove IsGenuine before after t (around before after t e)

      moved :
          (before after : List (Task Img)) (t u : Task Img)
          → m.active ≡ before ++ t ∷ after
          → (IsGenuine t → IsGenuine u)
          → All IsGenuine (before ++ u ∷ after)
      moved before after t u e f =
          let all = around before after t e in
          All-replace IsGenuine before after t u (f (All-at IsGenuine before after t all)) all

      only_active :
          (active : List (Task Img)) (hashes : List Hash) (w : W)
          → All IsGenuine active
          → Sound (record m { active = active; hashes = hashes; world = w })
      only_active active hashes w h = record {
        waiting = v.waiting;
        queued = v.queued;
        active = h;
        validated = v.validated;
      }

    pub Step-Sound :
        {m n : Machine W Img Hash} → Step env cfg ctx max_results m n → Sound m → Sound n
    Step-Sound (spawn c cs e f) v =
        let all = subst (All IsInput) e v.waiting in
        record {
          waiting = all.1;
          queued = All-append IsInput _ (c ∷ []) v.queued (all.0, tt);
          active = v.active;
          validated = v.validated;
        }
    Step-Sound (stop c cs e f) v = record {
      waiting = tt;
      queued = v.queued;
      active = v.active;
      validated = v.validated;
    }
    Step-Sound (acquire before after c e lt) v =
        let all = subst (All IsInput) e v.queued in
        record {
          waiting = v.waiting;
          queued = All-remove IsInput before after c all;
          active = (All-at IsInput before after c all, v.active);
          validated = v.validated;
        }
    Step-Sound (dropped before after c e f) v = only_active v _ _ _ (ended v before after _ e)
    Step-Sound {m} (download before after c d e f) v =
        only_active v _ _ _ (moved v before after _ _ e (λ i. (i, (m.world, f))))
    Step-Sound (duplicate before after c d e f) v = only_active v _ _ _ (ended v before after _ e)
    Step-Sound (unique before after c d e f) v =
        only_active v _ _ _ (moved v before after _ _ e (λ i. i))
    Step-Sound (reject before after c d e f) v = only_active v _ _ _ (ended v before after _ e)
    Step-Sound {m} (accept before after c d e f) v =
        only_active v _ _ _
          (moved v before after _ _ e (λ i. (i.0, fetched-IsAccepted c d i.1.0 m.world i.1.1 f)))
    Step-Sound {m} (append before after c e) v = record {
      waiting = v.waiting;
      queued = v.queued;
      active = ended v before after _ e;
      validated =
          append_validated-All IsResult m.validated c max_results v.validated
            (All-at IsGenuine before after _ (around v before after _ e));
    }
    Step-Sound (drift w) v = record {
      waiting = v.waiting;
      queued = v.queued;
      active = v.active;
      validated = v.validated;
    }
