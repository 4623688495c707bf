-- ===== src/Search/Order.antt =====
-- The order in which `SearchImagesWithOpts` hands the candidates to validation.
use go_imagefy.Prelude.{
  ltb, Bool, true, false, List, [], ◌∷◌, ◌++◌, if◌then◌else◌, ◌≡◌, refl, ap, ◌∙◌, All, Bool-cases,
  ◌⊎◌, inl, inr, All-append,
}
use go_imagefy.License.{ImageLicense, license_safe, license_unknown, license_blocked, rank}
use go_imagefy.Candidate.{ImageCandidate}
use go_imagefy.Search.{insert_sorted, sort_by_license}

-- Whether two licences are the same.
abbrev same : ImageLicense → ImageLicense → Bool
same license_safe license_safe = true
same license_unknown license_unknown = true
same license_blocked license_blocked = true
same _ _ = false

-- The candidates of a licence, in the order they stand in.
abbrev pub of_license : ImageLicense → List ImageCandidate → List ImageCandidate
of_license l [] = []
of_license l (c ∷ cs) = let rest = of_license l cs in if same c.license l then c ∷ rest else rest

behind_smaller :
    (c : ImageCandidate) (xs ys : List ImageCandidate)
    → All (λ d. ltb (rank d.license) (rank c.license) ≡ true) xs
    → insert_sorted c (xs ++ ys) ≡ xs ++ insert_sorted c ys
unfolding insert_sorted
behind_smaller c [] ys h = refl
behind_smaller c (x ∷ xs) ys (e, h) = rw (e) (ap (λ l. x ∷ l) (behind_smaller c xs ys h))

before_others :
    (c : ImageCandidate) (ys : List ImageCandidate)
    → All (λ d. ltb (rank d.license) (rank c.license) ≡ false) ys
    → insert_sorted c ys ≡ c ∷ ys
unfolding insert_sorted
before_others c [] h = refl
before_others c (y ∷ ys) (e, h) = rw (e) refl

-- Whether a candidate is of a licence or not.
pub of_license-cases :
    (l : ImageLicense) (c : ImageCandidate) (cs : List ImageCandidate)
    → (of_license l (c ∷ cs) ≡ c ∷ of_license l cs) ⊎ (of_license l (c ∷ cs) ≡ of_license l cs)
of_license-cases l c cs = elim (Bool-cases (same c.license l)) [
  | inl e ↦ inl (rw (e) refl)
  | inr e ↦ inr (rw (e) refl)
]

cases : (l : ImageLicense) → (l ≡ license_safe) ⊎ (l ≡ license_unknown) ⊎ (l ≡ license_blocked)
cases license_safe = inl refl
cases license_unknown = inr (inl refl)
cases license_blocked = inr (inr refl)

same_eq : (k l : ImageLicense) → same k l ≡ true → k ≡ l
same_eq license_safe license_safe e = refl
same_eq license_unknown license_unknown e = refl
same_eq license_blocked license_blocked e = refl
same_eq license_safe license_unknown e = cc
same_eq license_safe license_blocked e = cc
same_eq license_unknown license_safe e = cc
same_eq license_unknown license_blocked e = cc
same_eq license_blocked license_safe e = cc
same_eq license_blocked license_unknown e = cc

-- What a test says of a licence, it says of all the candidates of that licence.
of_license-All :
    (test : ImageLicense → Bool) (b : Bool) (l : ImageLicense) (cs : List ImageCandidate)
    → test l ≡ b
    → All (λ d. test d.license ≡ b) (of_license l cs)
of_license-All test b l [] e = tt
of_license-All test b l (c ∷ cs) e = elim (Bool-cases (same c.license l)) [
  | inl s ↦ rw (s) (ap test (same_eq c.license l s) ∙ e, of_license-All test b l cs e)
  | inr s ↦ rw (s) (of_license-All test b l cs e)
]

-- Where a candidate lands among others, of which the first are below it and the rest are not.
place :
    (c : ImageCandidate) (xs ys : List ImageCandidate)
    → All (λ d. ltb (rank d.license) (rank c.license) ≡ true) xs
    → All (λ d. ltb (rank d.license) (rank c.license) ≡ false) ys
    → insert_sorted c (xs ++ ys) ≡ xs ++ c ∷ ys
place c xs ys small large =
    behind_smaller c xs ys small ∙ ap (λ l. xs ++ l) (before_others c ys large)

module _ (c : ImageCandidate) (cs : List ImageCandidate) where
  -- The candidates of a licence against `c`.
  group :
      {k : ImageLicense} (b : Bool) (l : ImageLicense)
      → c.license ≡ k
      → ltb (rank l) (rank k) ≡ b
      → All (λ d. ltb (rank d.license) (rank c.license) ≡ b) (of_license l cs)
  group b l e t =
      of_license-All (λ x. ltb (rank x) (rank c.license)) b l cs
        (ap (λ x. ltb (rank l) (rank x)) e ∙ t)

  insert_safe :
      c.license ≡ license_safe
      → insert_sorted c (
          of_license license_safe cs
          ++ (of_license license_unknown cs ++ of_license license_blocked cs))
        ≡ c ∷ of_license license_safe cs
          ++ (of_license license_unknown cs ++ of_license license_blocked cs)
  insert_safe e = before_others c _ (
      All-append _ _ _ (group false license_safe e refl) (
        All-append _ _ _ (group false license_unknown e refl) (group false license_blocked e refl)))

  insert_unknown :
      c.license ≡ license_unknown
      → insert_sorted c (
          of_license license_safe cs
          ++ (of_license license_unknown cs ++ of_license license_blocked cs))
        ≡ of_license license_safe cs
          ++ (c ∷ of_license license_unknown cs ++ of_license license_blocked cs)
  insert_unknown e =
      place c (of_license license_safe cs) _ (group true license_safe e refl)
        (All-append _ _ _ (group false license_unknown e refl) (group false license_blocked e refl))

  insert_blocked :
      c.license ≡ license_blocked
      → insert_sorted c (
          of_license license_safe cs
          ++ (of_license license_unknown cs ++ of_license license_blocked cs))
        ≡ of_license license_safe cs
          ++ (of_license license_unknown cs ++ c ∷ of_license license_blocked cs)
  insert_blocked e =
      behind_smaller c (of_license license_safe cs) _ (group true license_safe e refl)
      ∙ ap (λ l. of_license license_safe cs ++ l)
          (place c (of_license license_unknown cs) _ (group true license_unknown e refl)
            (group false license_blocked e refl))

-- The sort puts the safe candidates first, then the unknown and the blocked ones, each of the three
-- groups in the order that the candidates came in.
pub sort_by_license_lem :
    (cs : List ImageCandidate)
    → sort_by_license cs
      ≡ of_license license_safe cs
        ++ (of_license license_unknown cs ++ of_license license_blocked cs)
unfolding sort_by_license
sort_by_license_lem [] = refl
sort_by_license_lem (c ∷ cs) =
    let placed = ap (insert_sorted c) (sort_by_license_lem cs) in
    elim (cases c.license) [
      | inl e ↦ simp (e) (placed ∙ insert_safe c cs e)
      | inr (inl e) ↦ simp (e) (placed ∙ insert_unknown c cs e)
      | inr (inr e) ↦ simp (e) (placed ∙ insert_blocked c cs e)
    ]
