-- ===== src/Web.antt =====
-- What the providers of openverse.go, pexels.go, provider_ddg.go and provider.go do alike: a GET
-- request whose body is read up to a limit and decoded, and a loop that makes candidates of results.
use go_imagefy.Prelude.{
  ℕ, ℤ, pos, ltb_ℤ, leb, ◌==◌, Option, some, none, List, [], ◌∷◌, if◌then◌else◌,
}
use go_imagefy.Text.{Text, codes, trim_right, in_cutset}
use go_imagefy.Platform.{Platform}
use go_imagefy.Candidate.{ImageCandidate}
use go_imagefy.Http.{
  Io, pure, ◌>>=◌, Context, Client, Response, new_request, send_built, read_limited, get, status_ok,
  status_bad_request,
}
use go_imagefy.Config.{
  SearchOpts, SearchError, bad_request, transport_failed, read_failed, bad_json, bad_status,
  SearchResult, found, failed,
}

-- Package code that a provider with answers of this type calls.
pub record Codec (R : Type 0) : Type 0 where
  -- `url.QueryEscape`.
  pub query_escape : Text → Text
  -- `json.Unmarshal` of an answer, with the list that it holds; `none` is an error.
  pub unmarshal : List ℕ → Option (List R)

-- A value or an error.
pub data Attempt (A : Type 0) : Type 0 where
  success : A → Attempt A
  failure : SearchError → Attempt A

-- A test of the status: the error that it is, if it is one.
abbrev pub StatusTest : Type 0
StatusTest = ℕ → Option SearchError

abbrev pub any_status : StatusTest
any_status status = none

abbrev pub only_ok : StatusTest
only_ok status = if status == status_ok then none else some (bad_status status)

-- `resp.StatusCode >= 400`.
abbrev pub below_400 : StatusTest
below_400 status = if leb status_bad_request status then some (bad_status status) else none

-- The body of an answer.
unfoldable pub read_body : StatusTest → ℕ → Option Response → Attempt (List ℕ)
read_body refuses limit none = failure transport_failed
read_body refuses limit (some resp) = elim (refuses resp.status) [
  | some e ↦ failure e
  | none ↦ elim (read_limited limit resp) [ none ↦ failure read_failed | some body ↦ success body ]
]

-- A GET request, up to the body.
unfoldable pub get_body :
    {W : Type 0} ⦃p : Platform⦄
    → Client W
    → Context
    → Text
    → List (Text × Text)
    → StatusTest
    → ℕ
    → Io W (Attempt (List ℕ))
get_body client ctx url headers refuses limit = elim (new_request ctx get url headers []) [
  | none ↦ pure (failure bad_request)
  | some req ↦ do reply ← send_built client (some req); pure (read_body refuses limit reply)
]

-- `json.Unmarshal` of a body that may not have come.
unfoldable pub decode :
    {R : Type 0} → (List ℕ → Option (List R)) → Attempt (List ℕ) → Attempt (List R)
decode unmarshal (failure e) = failure e
decode unmarshal (success body) = elim (unmarshal body) [
  | none ↦ failure bad_json
  | some results ↦ success results
]

-- The loop over results: what has no candidate is skipped.
unfoldable pub pick : {R : Type 0} → (R → Option ImageCandidate) → List R → List ImageCandidate
pick make [] = []
pick make (r ∷ rs) = let rest = pick make rs in elim (make r) [ none ↦ rest | some c ↦ c ∷ rest ]

-- The end of a search.
unfoldable pub candidates_from :
    {R : Type 0} → (R → Option ImageCandidate) → Attempt (List R) → SearchResult
candidates_from make (failure e) = failed e
candidates_from make (success rs) = found (pick make rs)

-- The page to ask for, from 1.
abbrev pub first_page : SearchOpts → ℤ
first_page opts = if ltb_ℤ opts.page_number (pos 1) then pos 1 else opts.page_number

-- The User-Agent, where one is configured.
abbrev pub agent_header : Text → List (Text × Text)
agent_header [] = []
agent_header (c ∷ agent) = (codes "User-Agent", c ∷ agent) ∷ []

-- `strings.TrimRight(base, "/")`.
abbrev pub without_slashes : Text → Text
without_slashes = trim_right (in_cutset (codes "/"))
