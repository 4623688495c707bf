-- ===== src/Pipeline/Schedule/Progress.antt =====
-- How far a call of `validateCandidates` has come: the steps that are left, and those that can be taken.
use go_imagefy.Prelude.{
  ℕ, zero, suc, ◌<◌, ◌+◌, ◌*◌, ◌≤◌, ℤ, List, [], ◌∷◌, ◌++◌, length, ◌≡◌, ◌⊎◌, inl, inr, refl, ap,
  arith, Bool-cases, Option-cases, length-append, length-around,
}
use go_imagefy.Platform.{Platform}
use go_imagefy.Candidate.{ImageCandidate}
use go_imagefy.Http.{Context}
use go_imagefy.Config.{Config}
use go_imagefy.Config.Environment.{Environment}
use go_imagefy.Pipeline.{fetch, dedup, judge}
use go_imagefy.Pipeline.Schedule.{
  Task, running, fetched, fresh, passed, Machine, launch, enough, Step, spawn, stop, acquire,
  dropped, download, duplicate, unique, reject, accept, append, drift, Reach, here, next,
}

-- The steps that a goroutine has before it.
abbrev pub steps_left : {Img : Type 0} → Task Img → ℕ
steps_left (running c) = 4
steps_left (fetched c d) = 3
steps_left (fresh c d) = 2
steps_left (passed c) = 1

pub work : {Img : Type 0} → List (Task Img) → ℕ
work [] = 0
work (t ∷ ts) = steps_left t + work ts

pub measure : {W Img Hash : Type 0} → Machine W Img Hash → ℕ
measure m = length m.waiting * 6 + length m.queued * 5 + work m.active

-- No candidate waits and no goroutine is left.
abbrev pub IsDone : {W Img Hash : Type 0} → Machine W Img Hash → Type 0
IsDone m = (m.waiting ≡ []) × (m.queued ≡ []) × (m.active ≡ [])

work-around :
    {Img : Type 0} (before after : List (Task Img)) (t : Task Img)
    → work (before ++ t ∷ after) ≡ steps_left t + work (before ++ after)
unfolding work
work-around [] after t = refl
work-around (u ∷ before) after t = omega (arith, work-around before after t)

List-cases :
    {A : Type 0} (xs : List A) → (xs ≡ []) ⊎ ((x : A) × ((rest : List A) × (xs ≡ x ∷ rest)))
List-cases [] = inl refl
List-cases (x ∷ rest) = inr (x, (rest, refl))

module _ {W Img Hash F : Type 0} (env : Environment W Img Hash F) ⦃p : Platform⦄ (cfg : Config W F)
    (ctx : Context) (max_results : ℤ) where
  -- 1 for a step that the program takes, 0 for a change of the world by itself.
  abbrev own : {m n : Machine W Img Hash} → Step env cfg ctx max_results m n → ℕ
  own (drift w) = 0
  own (spawn c cs e f) = 1
  own (stop c cs e f) = 1
  own (acquire before after c e lt) = 1
  own (dropped before after c e f) = 1
  own (download before after c d e f) = 1
  own (duplicate before after c d e f) = 1
  own (unique before after c d e f) = 1
  own (reject before after c d e f) = 1
  own (accept before after c d e f) = 1
  own (append before after c e) = 1

  -- How many steps of a run the program takes.
  pub own_steps : {m n : Machine W Img Hash} → Reach env cfg ctx max_results m n → ℕ
  own_steps here = 0
  own_steps (next r st) = own st + own_steps r

  Step-measure :
      {m n : Machine W Img Hash} (st : Step env cfg ctx max_results m n)
      → own st + measure n ≤ measure m
  unfolding measure work
  Step-measure {m} (spawn c cs e f) = omega (arith, ap length e, length-append m.queued (c ∷ []))
  Step-measure {m} (stop c cs e f) = omega (arith, ap length e)
  Step-measure {m} (acquire before after c e lt) =
      omega (arith, ap length e, length-around before after c)
  Step-measure (dropped before after c e f) =
      omega (arith, ap work e, work-around before after (running c))
  Step-measure (download before after c d e f) = omega (
    arith,
    ap work e,
    work-around before after (running c),
    work-around before after (fetched c d),
  )
  Step-measure (duplicate before after c d e f) =
      omega (arith, ap work e, work-around before after (fetched c d))
  Step-measure (unique before after c d e f) = omega (
    arith,
    ap work e,
    work-around before after (fetched c d),
    work-around before after (fresh c d),
  )
  Step-measure (reject before after c d e f) =
      omega (arith, ap work e, work-around before after (fresh c d))
  Step-measure (accept before after c d e f) =
      omega (
        arith,
        ap work e,
        work-around before after (fresh c d),
        work-around before after (passed c),
      )
  Step-measure (append before after c e) =
      omega (arith, ap work e, work-around before after (passed c))
  Step-measure (drift w) = omega arith

  own_steps-measure :
      {m n : Machine W Img Hash} (r : Reach env cfg ctx max_results m n)
      → own_steps r + measure n ≤ measure m
  unfolding own_steps
  own_steps-measure here = omega arith
  own_steps-measure (next r st) = omega (arith, own_steps-measure r, Step-measure st)

  -- However the goroutines interleave, the program takes at most six steps for each candidate, the
  -- changes of the world by itself not counted.
  pub own_steps-le :
      (input : List ImageCandidate) (w : W) {m : Machine W Img Hash}
      (r : Reach env cfg ctx max_results (launch input w) m)
      → own_steps r ≤ length input * 6
  unfolding measure work
  own_steps-le input w r = omega (arith, own_steps-measure r)

  -- The program can take a step from here.
  abbrev pub CanStep : Machine W Img Hash → Type 0
  CanStep m = (n : Machine W Img Hash) × ((st : Step env cfg ctx max_results m n) × (own st ≡ 1))

  task-CanStep :
      (m : Machine W Img Hash) (t : Task Img) (ts : List (Task Img)) → m.active ≡ t ∷ ts → CanStep m
  task-CanStep m (running c) ts e = elim (Option-cases (fetch env cfg ctx c m.world).0) [
    | inl f ↦ (_, (dropped [] ts c e f, refl))
    | inr (d, f) ↦ (_, (download [] ts c d e f, refl))
  ]
  task-CanStep m (fetched c d) ts e = elim (Bool-cases (dedup env cfg ctx m.hashes d.image).0) [
    | inl f ↦ (_, (duplicate [] ts c d e f, refl))
    | inr f ↦ (_, (unique [] ts c d e f, refl))
  ]
  task-CanStep m (fresh c d) ts e = elim (Bool-cases (judge env cfg ctx c d m.world).0) [
    | inl f ↦ (_, (accept [] ts c d e f, refl))
    | inr f ↦ (_, (reject [] ts c d e f, refl))
  ]
  task-CanStep m (passed c) ts e = (_, (append [] ts c e, refl))

  -- Until every candidate is dealt with and every goroutine has ended, the program can take a step
  -- of its own.
  pub CanStep-until-IsDone : (m : Machine W Img Hash) → IsDone m ⊎ CanStep m
  CanStep-until-IsDone m = elim (List-cases m.active) [
    | inr (t, (ts, e)) ↦ inr (task-CanStep m t ts e)
    | inl idle ↦ elim (List-cases m.queued) [
      | inr (c, (cs, e)) ↦ inr (_, (acquire [] cs c e (omega (arith, ap length idle)), refl))
      | inl none_queued ↦ elim (List-cases m.waiting) [
        | inl none_waiting ↦ inl (none_waiting, none_queued, idle)
        | inr (c, (cs, e)) ↦ elim (Bool-cases (enough max_results m.validated)) [
          | inl f ↦ inr (_, (stop c cs e f, refl))
          | inr f ↦ inr (_, (spawn c cs e f, refl))
        ]
      ]
    ]
  ]

  -- From every state the program can go on to the end.
  pub run_to_end :
      (fuel : ℕ) {start : Machine W Img Hash} (m : Machine W Img Hash)
      → measure m < fuel
      → Reach env cfg ctx max_results start m
      → (n : Machine W Img Hash) × (Reach env cfg ctx max_results start n × IsDone n)
  run_to_end zero m h r = absurd (omega arith)
  run_to_end (suc fuel) m h r = elim (CanStep-until-IsDone m) [
    | inl done ↦ (m, (r, done))
    | inr (n, (st, one)) ↦ run_to_end fuel n (omega (arith, Step-measure st)) (next r st)
  ]
