-- ===== src/Pipeline/Schedule.antt =====
-- The goroutines of `validateCandidates`, as interleavings of the stages of `validateOne`.
-- One step is what a goroutine does between two locks; the world may change between any two steps
-- by itself (`drift`), so it is no restriction that a stage runs as a whole.
pub mod Invariant
pub mod Memory
pub mod Outcome
pub mod Progress
pub mod Alone
use go_imagefy.Prelude.{
  ℕ, ◌+◌, ◌<◌, ℤ, pos, ltb_ℤ, leb_ℤ, Bool, true, false, Option, some, none, List, [], ◌∷◌, ◌++◌,
  length, ◌≡◌,
}
use go_imagefy.Platform.{Platform}
use go_imagefy.Candidate.{ImageCandidate}
use go_imagefy.Http.{Context}
use go_imagefy.Config.{Config}
use go_imagefy.Config.Environment.{Environment}
use go_imagefy.Pipeline.{Downloaded, fetch, dedup, judge, append_validated}

abbrev pub validation_semaphore : ℕ
validation_semaphore = 3

-- Where a goroutine that holds the semaphore stands in `validateOne`.
pub data Task (Img : Type 0) : Type 0 where
  running : ImageCandidate → Task Img
  fetched : ImageCandidate → Downloaded Img → Task Img
  fresh : ImageCandidate → Downloaded Img → Task Img
  passed : ImageCandidate → Task Img

pub record Machine (W Img Hash : Type 0) : Type 0 where
  -- The rest of the loop over candidates, and whether it was broken off shows in its being empty.
  pub waiting : List ImageCandidate
  -- Goroutines that wait for the semaphore.
  pub queued : List ImageCandidate
  pub active : List (Task Img)
  pub validated : List ImageCandidate
  pub hashes : List Hash
  pub world : W

-- The call starts.
abbrev pub launch : {W Img Hash : Type 0} → List ImageCandidate → W → Machine W Img Hash
launch candidates w = record {
  waiting = candidates;
  queued = [];
  active = [];
  validated = [];
  hashes = [];
  world = w;
}

-- `len(validated) >= maxResults`.
abbrev pub enough : ℤ → List ImageCandidate → Bool
enough max_results validated = leb_ℤ max_results (pos (length validated))

module _ {W Img Hash F : Type 0} (env : Environment W Img Hash F) ⦃p : Platform⦄ (cfg : Config W F)
    (ctx : Context) (max_results : ℤ) where
  pub data Step (m : Machine W Img Hash) : Machine W Img Hash → Type 0 where
    -- The loop starts a goroutine.
    spawn :
        (c : ImageCandidate) (cs : List ImageCandidate)
        → m.waiting ≡ c ∷ cs
        → enough max_results m.validated ≡ false
        → Step m (record m { waiting = cs; queued = m.queued ++ c ∷ [] })
    -- The loop sees enough results and ends.
    stop :
        (c : ImageCandidate) (cs : List ImageCandidate)
        → m.waiting ≡ c ∷ cs
        → enough max_results m.validated ≡ true
        → Step m (record m { waiting = [] })
    -- A goroutine gets a place of the semaphore.
    acquire :
        (before after : List ImageCandidate) (c : ImageCandidate)
        → m.queued ≡ before ++ c ∷ after
        → length m.active < validation_semaphore
        → Step m (record m { queued = before ++ after; active = running c ∷ m.active })
    -- The candidate is dropped before its download.
    dropped :
        (before after : List (Task Img)) (c : ImageCandidate)
        → m.active ≡ before ++ running c ∷ after
        → (fetch env cfg ctx c m.world).0 ≡ none
        → Step m (record m { active = before ++ after; world = (fetch env cfg ctx c m.world).1 })
    -- It is past the probe and the extra domains, with what its download gave, be it nothing.
    download :
        (before after : List (Task Img)) (c : ImageCandidate) (d : Downloaded Img)
        → m.active ≡ before ++ running c ∷ after
        → (fetch env cfg ctx c m.world).0 ≡ some d
        → Step m (record m {
          active = before ++ fetched c d ∷ after;
          world = (fetch env cfg ctx c m.world).1;
        })
    -- The filter calls it a duplicate.
    duplicate :
        (before after : List (Task Img)) (c : ImageCandidate) (d : Downloaded Img)
        → m.active ≡ before ++ fetched c d ∷ after
        → (dedup env cfg ctx m.hashes d.image).0 ≡ true
        → Step m
            (record m { active = before ++ after; hashes = (dedup env cfg ctx m.hashes d.image).1 })
    -- The filter lets it pass.
    unique :
        (before after : List (Task Img)) (c : ImageCandidate) (d : Downloaded Img)
        → m.active ≡ before ++ fetched c d ∷ after
        → (dedup env cfg ctx m.hashes d.image).0 ≡ false
        → Step m (record m {
          active = before ++ fresh c d ∷ after;
          hashes = (dedup env cfg ctx m.hashes d.image).1;
        })
    -- It is rejected by its licence, the reverse search or the vision model.
    reject :
        (before after : List (Task Img)) (c : ImageCandidate) (d : Downloaded Img)
        → m.active ≡ before ++ fresh c d ∷ after
        → (judge env cfg ctx c d m.world).0 ≡ false
        → Step m (record m { active = before ++ after; world = (judge env cfg ctx c d m.world).1 })
    -- It is accepted.
    accept :
        (before after : List (Task Img)) (c : ImageCandidate) (d : Downloaded Img)
        → m.active ≡ before ++ fresh c d ∷ after
        → (judge env cfg ctx c d m.world).0 ≡ true
        → Step m (record m {
          active = before ++ passed c ∷ after;
          world = (judge env cfg ctx c d m.world).1;
        })
    -- It is appended, and its goroutine ends.
    append :
        (before after : List (Task Img)) (c : ImageCandidate)
        → m.active ≡ before ++ passed c ∷ after
        → Step m (record m {
          active = before ++ after;
          validated = append_validated m.validated c max_results;
        })
    -- The world changes by itself.
    drift : (w : W) → Step m (record m { world = w })

  pub data Reach (m : Machine W Img Hash) : Machine W Img Hash → Type 0 where
    here : Reach m m
    next : {n o : Machine W Img Hash} → Reach m n → Step n o → Reach m o
