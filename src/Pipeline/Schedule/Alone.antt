-- ===== src/Pipeline/Schedule/Alone.antt =====
-- `validateOne` run by itself, among the interleavings.
use go_imagefy.Prelude.{ℤ, List}
use go_imagefy.Platform.{Platform}
use go_imagefy.Candidate.{ImageCandidate}
use go_imagefy.Http.{Context}
use go_imagefy.Config.{Config}
use go_imagefy.Config.Environment.{Environment}
use go_imagefy.Pipeline.{Shared}
use go_imagefy.Pipeline.Schedule.{Task, Machine}

module _ {W Img Hash F : Type 0} (env : Environment W Img Hash F) ⦃p : Platform⦄ (cfg : Config W F)
    (ctx : Context) (max_results : ℤ) (m : Machine W Img Hash) (c : ImageCandidate)
    (ts : List (Task Img)) where
  -- The machine when the goroutine of `c` has ended, with its effect on what is shared.
  abbrev pub ended_with : Shared Hash × W → Machine W Img Hash
  ended_with r = record m {
    active = ts;
    validated = r.0.validated;
    hashes = r.0.hashes;
    world = r.1;
  }

  abbrev pub shared : Shared Hash
  shared = record { validated = m.validated; hashes = m.hashes }
