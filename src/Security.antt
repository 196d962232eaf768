-- ===== src/Security.antt =====
-- The trust boundary: src/minion/auth.py (which repositories a task may name), security.py (who may
-- call the API) and git_auth.py (what environment a child process gets).
pub mod Repositories
pub mod Secrets
pub mod Tokens
use software_engineering_age.Prelude.{
  String, ◌<>◌, Bool, true, false, ◌&&◌, ◌||◌, not, Option, none, some, List, [], ◌∷◌, ◌++◌, ◌==◌,
  contains, is_empty, select, get_or, if◌then◌else◌, ltb, code,
}
use text.Mathlib.Text.{starts_with}
use software_engineering_age.Prelude.Text
use software_engineering_age.Domain.{RepositorySpec}
use software_engineering_age.Effects.{Result, ok, err, authorization_error, external, value_error}

-- What `urlparse` reads of a URL, with its ValueError for one that it cannot read, and `str.lower`.
pub record UrlLibrary : Type 0 where
  pub malformed : String → Option String
  pub scheme : String → String
  pub hostname : String → Option String
  pub lower : String → String

module _ (urls : UrlLibrary) (repo_hosts : List String) where
  -- one round of the loop of `authorize_repositories`
  unfoldable pub authorize_repository : RepositorySpec → Result (Unit {0})
  authorize_repository repo = elim (urls.malformed repo.url) [
    | some e ↦ err (value_error e)
    | none ↦
        if not (contains (urls.scheme repo.url) ("https" ∷ "ssh" ∷ "git" ∷ []))
        then err (authorization_error ("unsupported repository URL: " <> repo.url))
        else if Text.has ".." repo.url
        then err (authorization_error "repository URL contains invalid path traversal")
        else let host = urls.lower (get_or (urls.hostname repo.url) "") in
          if not (is_empty repo_hosts) && not (contains host repo_hosts)
          then err (
              authorization_error
                ("repository host '" <> (host <> "' is not in MINION_ALLOWED_REPO_HOSTS")))
          else ok tt
  ]

  abbrev before : Result (Unit {0}) → Result (Unit {0}) → Result (Unit {0})
  before (ok u) rest = rest
  before (err e) rest = err e

  unfoldable pub authorize_repositories : List RepositorySpec → Result (Unit {0})
  unfolding authorize_repository
  authorize_repositories [] = ok tt
  authorize_repositories (repo ∷ rest) =
      before (authorize_repository repo) (authorize_repositories rest)

-- `os.environ` and the like, in order
abbrev pub Environ : Type 0
Environ = List (String × String)

abbrev pub blocked_exact : List String
blocked_exact = "GITHUB_TOKEN" ∷ "OPENAI_API_KEY" ∷ "MINION_API_TOKEN" ∷ []

abbrev pub is_passed : String × String → Bool
is_passed (key, value) = not (contains key blocked_exact) && not (starts_with key "GIT_CONFIG_")

-- `dict(base or os.environ)`, then the filter
unfoldable pub safe_child_environment : Option Environ → Environ → Environ
safe_child_environment none environ = select is_passed environ
safe_child_environment (some base) environ =
    select is_passed (if is_empty base then environ else base)

-- `env[key] = value`
abbrev pub put : String → String → Environ → Environ
put key value [] = (key, value) ∷ []
put key value ((k, v) ∷ rest) = if k == key then (k, value) ∷ rest else (k, v) ∷ put key value rest

-- `git_environment`; `encode` is base64 of the UTF-8 bytes
unfoldable pub git_environment : (String → String) → Option String → Environ → Environ
git_environment encode none environ = environ
git_environment encode (some token) environ =
    if Text.nonempty token
    then put "GIT_TERMINAL_PROMPT" "0" (
        put "GIT_CONFIG_VALUE_0" ("AUTHORIZATION: basic " <> encode ("x-access-token:" <> token))
          (put "GIT_CONFIG_KEY_0" "http.extraheader" (put "GIT_CONFIG_COUNT" "1" environ)))
    else environ

abbrev pub is_ascii : String → Bool
is_ascii String.[] = true
is_ascii (String.◌∷◌ c s) = ltb (code c) 128 && is_ascii s

-- `secrets.compare_digest` of two texts, which have to be ASCII
unfoldable pub compare_digest : String → String → Result Bool
compare_digest a b = if is_ascii a && is_ascii b then ok (a == b) else err (external "TypeError")

-- the token of an HTTP call, which need not have the header
abbrev pub bearer : UrlLibrary → Option String → String
bearer urls none = ""
bearer urls (some header) =
    if Text.nonempty header && starts_with (urls.lower header) "bearer "
    then Text.drop 7 header
    else ""

-- the token of a WebSocket: that of the header, or else the query parameter `token`
abbrev pub supplied : UrlLibrary → Option String → Option String → String
supplied urls header token =
    let authorization = get_or header "" in
    if starts_with (urls.lower authorization) "bearer "
    then Text.drop 7 authorization
    else get_or token ""

abbrev pub unless_equal : Result Bool → Result (Unit {0})
unless_equal (ok true) = ok tt
unless_equal (ok false) = err (external "HTTPException: 401: invalid API token")
unless_equal (err e) = err e

unfoldable pub require_api_token : UrlLibrary → Option String → Option String → Result (Unit {0})
unfolding compare_digest
require_api_token urls none authorization = ok tt
require_api_token urls (some expected) authorization =
    if Text.nonempty expected
    then unless_equal (compare_digest (bearer urls authorization) expected)
    else ok tt

unfoldable pub websocket_authorized :
    UrlLibrary → Option String → Option String → Option String → Result Bool
unfolding compare_digest
websocket_authorized urls none authorization token = ok true
websocket_authorized urls (some expected) authorization token =
    if Text.nonempty expected
    then compare_digest (supplied urls authorization token) expected
    else ok true
