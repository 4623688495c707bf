-- ===== src/Pipeline/Schedule/Outcome.antt =====
-- What every interleaving of `validateCandidates` leaves behind, at its end and before.
use go_imagefy.Prelude.{
  ◌≤◌, ℤ, to_ℕ, List, [], ◌∷◌, length, ◌≡◌, inl, inr, refl, arith, All, All-map, Any,
}
use go_imagefy.Platform.{Platform}
use go_imagefy.Candidate.{ImageCandidate}
use go_imagefy.Http.{Context}
use go_imagefy.Config.{Config}
use go_imagefy.Config.Environment.{Environment}
use go_imagefy.Dedup.Distinct.{AreApart}
use go_imagefy.Pipeline.Schedule.{validation_semaphore, Machine, launch, Reach, here, next}
use go_imagefy.Pipeline.Schedule.Invariant.{
  Step-bounded, Step-few, Step-AreApart, Step-Sound, Sound, IsResult,
}
use go_imagefy.Pipeline.Schedule.Memory.{IsStored, IsRemembered, Remembers, Step-Remembers}

module _ {W Img Hash F : Type 0} (env : Environment W Img Hash F) ⦃p : Platform⦄ (cfg : Config W F)
    (ctx : Context) (max_results : ℤ) where
  Reach-bounded :
      {m n : Machine W Img Hash}
      → Reach env cfg ctx max_results m n
      → length m.validated ≤ to_ℕ max_results
      → length n.validated ≤ to_ℕ max_results
  Reach-bounded here h = h
  Reach-bounded (next r st) h = Step-bounded env cfg ctx max_results st (Reach-bounded r h)

  Reach-few :
      {m n : Machine W Img Hash}
      → Reach env cfg ctx max_results m n
      → length m.active ≤ validation_semaphore
      → length n.active ≤ validation_semaphore
  Reach-few here h = h
  Reach-few (next r st) h = Step-few env cfg ctx max_results st (Reach-few r h)

  Reach-AreApart :
      {m n : Machine W Img Hash}
      → Reach env cfg ctx max_results m n
      → AreApart env.hashing m.hashes
      → AreApart env.hashing n.hashes
  Reach-AreApart here h = h
  Reach-AreApart (next r st) h = Step-AreApart env cfg ctx max_results st (Reach-AreApart r h)

  Reach-Remembers :
      {m n : Machine W Img Hash}
      → Reach env cfg ctx max_results m n
      → Remembers env cfg ctx max_results m
      → Remembers env cfg ctx max_results n
  Reach-Remembers here h = h
  Reach-Remembers (next r st) h = Step-Remembers env cfg ctx max_results st (Reach-Remembers r h)

  Reach-Sound :
      (input : List ImageCandidate) {m n : Machine W Img Hash}
      → Reach env cfg ctx max_results m n
      → Sound env cfg ctx max_results input m
      → Sound env cfg ctx max_results input n
  Reach-Sound input here h = h
  Reach-Sound input (next r st) h =
      Step-Sound env cfg ctx max_results input st (Reach-Sound input r h)

inputs : (input : List ImageCandidate) → All (λ c. Any (λ x. x ≡ c) input) input
inputs [] = tt
inputs (c ∷ cs) = (inl refl, All-map (λ d. Any (λ x. x ≡ d) cs) _ (λ d h. inr h) cs (inputs cs))

module _ {W Img Hash F : Type 0} (env : Environment W Img Hash F) ⦃p : Platform⦄ (cfg : Config W F)
    (ctx : Context) (max_results : ℤ) (input : List ImageCandidate) (w : W) {m : Machine W Img Hash}
    (run : Reach env cfg ctx max_results (launch input w) m) where
  -- However the goroutines interleave, there are never more results than were asked for, and none
  -- if the number asked for is not positive.
  pub validated-le-max_results : length m.validated ≤ to_ℕ max_results
  validated-le-max_results = Reach-bounded env cfg ctx max_results run (omega arith)

  -- However the goroutines interleave, three of them at most are past the semaphore at a time.
  pub active-le-semaphore : length m.active ≤ validation_semaphore
  active-le-semaphore = Reach-few env cfg ctx max_results run (omega arith)

  -- However the goroutines interleave, no stored hash has a distance below ten from one that was
  -- stored before it, and the image that was decoded for a goroutine past the filter, or for a
  -- result, is nil, has no hash, or has its hash stored.
  pub hashes-AreApart :
      AreApart env.hashing m.hashes
      × All (IsRemembered env cfg ctx m.hashes) m.active
      × All (IsStored env cfg ctx m.hashes) m.validated
  hashes-AreApart =
      let memory =
        Reach-Remembers env cfg ctx max_results run (record { active = tt; validated = tt }) in
      (Reach-AreApart env cfg ctx max_results run tt, memory.active, memory.validated)

  -- However the goroutines interleave, every result is one of the given candidates, its address
  -- passed the probe, no extra blocked domain blocks it or its page, and the judgement accepted it on
  -- what `downloadForValidation` gave right after the probe.
  pub validated-IsResult : All (IsResult env cfg ctx max_results input) m.validated
  validated-IsResult =
      (Reach-Sound env cfg ctx max_results input run
        (record { waiting = inputs input; queued = tt; active = tt; validated = tt })).validated
