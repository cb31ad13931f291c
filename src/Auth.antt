-- ===== src/Auth.antt =====
-- internal/server/middleware.go and the choice of the handler in internal/server/server.go: which
-- requests reach the routes when an API key is set.
pub mod Laws
use copilot_openai_proxy.Base.{
  ℕ, Bool, true, false, not, ◌||◌, Option, none, some, List, [], ◌∷◌, ◌==◌, if◌then◌else◌,
}
use copilot_openai_proxy.Base.Text.{Text, codes, text_eq}
use copilot_openai_proxy.Base.Unicode.{Unicode, equal_fold}
use copilot_openai_proxy.Errors.{is_empty}

-- What becomes of a request: the wrapped handler serves it, or WriteErrorJSON answers.
pub data Served : Type 0 where
  next_serves : Served
  -- status, type and message
  write_error_json : ℕ → Text → Text → Served

abbrev pub unauthorized : Served
unauthorized = write_error_json 401 (codes "authentication_error") (codes "invalid API key")

-- strings.SplitN(s, " ", 2): one part, or the parts before and after the first blank
unfoldable pub split_blank : Text → Option (Text × Text)
split_blank [] = none
split_blank (c ∷ s) =
    let rest = split_blank s in
    if c == b' '
    then some ([], s)
    else elim rest [ none ↦ none | some (before, after) ↦ some (c ∷ before, after) ]

module _ ⦃u : Unicode⦄ where
  -- The test of the parts of the header.
  unfoldable pub check_parts : Text → Option (Text × Text) → Served
  check_parts api_key none = unauthorized
  check_parts api_key (some (scheme, key)) =
      if not (equal_fold scheme (codes "bearer")) || not (text_eq key api_key)
      then unauthorized
      else next_serves

  -- authMiddleware on the path and the Authorization header, which is empty if there is none
  unfoldable pub auth_middleware : Text → Text → Text → Served
  unfolding check_parts split_blank
  auth_middleware api_key path auth_header =
      if text_eq path (codes "/healthz")
      then next_serves
      else if is_empty auth_header
      then unauthorized
      else check_parts api_key (split_blank auth_header)

  -- The handler that New installs.
  unfoldable pub new_handler : Text → Text → Text → Served
  unfolding auth_middleware
  new_handler api_key path auth_header =
      if not (is_empty api_key) then auth_middleware api_key path auth_header else next_serves
