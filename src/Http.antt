-- ===== src/Http.antt =====
-- What the code uses of net/http: headers and responses. The exchange of a request for a response is a
-- parameter of the definitions that make one. A body is a list of bytes.
use copilot_openai_proxy.Base.{ℕ, Option, none, some, List, [], ◌∷◌, if◌then◌else◌}
use copilot_openai_proxy.Base.Text.{Text, codes, text_eq}
use copilot_openai_proxy.Errors.{Result}

-- The constants of internal/copilot/client.go.
abbrev pub copilot_origin : Text
copilot_origin = codes "https://copilot.microsoft.com"

abbrev pub copilot_user_agent : Text
copilot_user_agent = codes "CopilotNative/30.0.440527002-prod (Android 9; Xiaomi; Redmi Note 7)"

abbrev pub accept_language : Text
accept_language = codes "zh-CN,zh;q=0.9,en;q=0.8"

abbrev pub Headers : Type 0
Headers = List (Text × Text)

-- `h.Set(key, value)`
unfoldable pub set_header : Text → Text → Headers → Headers
set_header key value [] = (key, value) ∷ []
set_header key value ((k, v) ∷ h) =
    let rest = set_header key value h in if text_eq k key then (key, value) ∷ h else (k, v) ∷ rest

-- `h.Get(key)`, `none` for a header that is not set
unfoldable pub get_header : Text → Headers → Option Text
get_header key [] = none
get_header key ((k, v) ∷ h) = if text_eq k key then some v else get_header key h

-- setCommonHeaders of internal/copilot/cookies.go
unfoldable pub set_common_headers : Headers → Headers
unfolding set_header
set_common_headers h =
    set_header (codes "Accept") (codes "application/json")
      (set_header (codes "User-Agent") copilot_user_agent h)

pub record Request : Type 0 where
  pub url : Text
  pub headers : Headers
  pub content : List ℕ

-- A response whose body is read whole, which may fail.
pub record Response : Type 0 where
  pub status_code : ℕ
  pub body : Result Text
