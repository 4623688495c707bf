-- ===== src/Http.antt =====
-- The outside world as the program meets it: calls that change a world W, contexts with their
-- timeouts, and HTTP exchanges of package `net/http`. What a server answers is a parameter.
use go_imagefy.Prelude.{
  ℕ, ◌*◌, ℤ, pos, Bool, Option, some, none, List, ◌∷◌, leb, if◌then◌else◌, length, take,
}
use go_imagefy.Text.{Text, codes}
use go_imagefy.Platform.{Platform, parse_url}

-- A call that may change the world.
abbrev pub Io : Type 0 → Type 0 → Type 0
Io W A = W → A × W

abbrev pub pure : {W A : Type 0} → A → Io W A
pure a w = (a, w)

infixl 5 ◌>>=◌ ◌>>◌
abbrev pub ◌>>=◌ : {W A B : Type 0} → Io W A → (A → Io W B) → Io W B
◌>>=◌ m f w = f (m w).0 (m w).1

abbrev pub ◌>>◌ : {W B : Type 0} → Io W (Unit {0}) → Io W B → Io W B
◌>>◌ m k w = k (m w).1

-- `time.Duration`, in nanoseconds.
abbrev pub Duration : Type 0
Duration = ℤ

abbrev pub seconds : ℕ → Duration
seconds n = pos (n * 1_000_000_000)

-- A context: the timeouts that it was given, the latest first.
abbrev pub Context : Type 0
Context = List Duration

-- `context.WithTimeout`.
abbrev pub with_timeout : Context → Duration → Context
with_timeout ctx d = d ∷ ctx

pub record Request : Type 0 where
  pub context : Context
  pub method : Text
  pub url : Text
  pub headers : List (Text × Text)
  pub body : Text

-- A response as far as the program reads it. `arriving` is what can be read of the body, and
-- `broken` says that the body ends with an error and not with its end.
pub record Response : Type 0 where
  pub status : ℕ
  pub content_type : Text
  pub arriving : List ℕ
  pub broken : Bool

-- Carries a request out: the redirect test (on the number of requests made), the client's timeout
-- and the request. `none` is an error.
abbrev pub Transport : Type 0 → Type 0
Transport W = (ℕ → Bool) → Duration → Request → Io W (Option Response)

-- `http.Client`: its transport with its cookie jar, the redirect test and the timeout.
pub record Client (W : Type 0) : Type 0 where
  pub transport : Transport W
  pub stops_redirect : ℕ → Bool
  pub timeout : Duration

-- `client.Do(req)`.
abbrev pub send : {W : Type 0} → Client W → Request → Io W (Option Response)
send c req = c.transport c.stops_redirect c.timeout req

-- `io.ReadAll(io.LimitReader(resp.Body, limit))`; `none` is an error. Nothing is read beyond the
-- limit, so an error behind it is not seen.
unfoldable pub read_limited : ℕ → Response → Option (List ℕ)
read_limited limit r =
    if leb limit (length r.arriving)
    then some (take limit r.arriving)
    else if r.broken
    then none
    else some r.arriving

-- `http.NewRequestWithContext`: it fails where the address does not parse.
unfoldable pub new_request :
    ⦃p : Platform⦄ → Context → Text → Text → List (Text × Text) → Text → Option Request
new_request ctx method url headers body = elim (parse_url url) [
  | none ↦ none
  | some parsed ↦
      some (record { context = ctx; method = method; url = url; headers = headers; body = body })
]

abbrev pub status_ok : ℕ
status_ok = 200

abbrev pub status_bad_request : ℕ
status_bad_request = 400

abbrev pub get : Text
get = codes "GET"

-- `client.Do` on a request that may not have been built; `none` is an error of either.
unfoldable pub send_built : {W : Type 0} → Client W → Option Request → Io W (Option Response)
send_built c none = pure none
send_built c (some req) = send c req
