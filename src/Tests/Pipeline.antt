-- ===== src/Tests/Pipeline.antt =====
-- The pipeline and its interleavings at concrete inputs.
use go_imagefy.Prelude.{
  ℕ, ◌*◌, ◌≤◌, pos, to_ℕ, true, some, List, [], ◌∷◌, length, ◌≡◌, ◌↔◌, ◌⊎◌, refl, arith,
}
use go_imagefy.Text.{codes}
use go_imagefy.License.{license_safe, license_unknown}
use go_imagefy.Candidate.{ImageCandidate}
use go_imagefy.Pipeline.{Downloaded, assessed, judge}
use go_imagefy.Pipeline.Verdicts.{LooksReal, judge_iff}
use go_imagefy.Pipeline.Schedule.{running, Machine, launch, Reach, here, next, spawn, acquire}
use go_imagefy.Pipeline.Schedule.Outcome.{validated-le-max_results}
use go_imagefy.Pipeline.Schedule.Progress.{
  IsDone, CanStep, own_steps, own_steps-le, CanStep-until-IsDone,
}
use go_imagefy.Tests.World.{ascii, env, plain, photo, other_photo}

abbrev image : Downloaded ℕ
image = record { bytes = 1 ∷ []; mime_type = codes "image/png"; image = some 7 }

judge_iff_example : ((judge env plain [] other_photo image 0).0 ≡ true) ↔ (
    (assessed env plain [] other_photo image ≡ license_safe)
    ⊎ ((assessed env plain [] other_photo image ≡ license_unknown)
        × LooksReal env plain [] other_photo image 0))
judge_iff_example = judge_iff env plain [] other_photo image 0

abbrev both : List ImageCandidate
both = photo ∷ other_photo ∷ []

-- A run whose two goroutines are started, the second one first past the semaphore.
abbrev middle : Machine ℕ ℕ ℕ
middle = record (launch both 0) {
  waiting = [];
  queued = photo ∷ [];
  active = running other_photo ∷ [];
}

abbrev run : Reach env plain [] (pos 1) (launch both 0) middle
run =
    next
      (next (next here (spawn photo (other_photo ∷ []) refl refl)) (spawn other_photo [] refl refl))
      (acquire (photo ∷ []) [] other_photo refl (omega arith))

validated-le-max_results_example : length middle.validated ≤ to_ℕ (pos 1)
validated-le-max_results_example = validated-le-max_results env plain [] (pos 1) both 0 run

own_steps-le_example : own_steps env plain [] (pos 1) run ≤ length both * 6
own_steps-le_example = own_steps-le env plain [] (pos 1) both 0 run

CanStep-until-IsDone_example :
    IsDone {W = ℕ} {Img = ℕ} {Hash = ℕ} (launch (photo ∷ []) 0)
    ⊎ CanStep env plain [] (pos 1) (launch (photo ∷ []) 0)
CanStep-until-IsDone_example = CanStep-until-IsDone env plain [] (pos 1) (launch (photo ∷ []) 0)
