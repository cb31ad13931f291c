-- ===== src/Cookies.antt =====
-- internal/copilot/cookies.go: the cookies of a session. A nil pointer to a cookie is `none`.
pub mod Laws
use copilot_openai_proxy.Base.{
  Bool, true, false, not, ◌&&◌, ◌||◌, Option, none, some, List, [], ◌∷◌, ◌++◌, if◌then◌else◌,
}
use copilot_openai_proxy.Base.Text.{Text, codes, text_eq, join}
use copilot_openai_proxy.Errors.{is_empty}

pub record Cookie : Type 0 where
  pub name : Text
  pub value : Text

-- the constant CookieAnon of client.go
abbrev pub cookie_anon : Text
cookie_anon = codes "__Host-copilot-anon"

cookie_pairs : List (Option Cookie) → List Text
cookie_pairs [] = []
cookie_pairs (none ∷ cookies) = cookie_pairs cookies
cookie_pairs (some ck ∷ cookies) =
    let rest = cookie_pairs cookies in
    if is_empty ck.name || is_empty ck.value
    then rest
    else (ck.name ++ (codes "=" ++ ck.value)) ∷ rest

-- collectCookies
unfoldable pub collect_cookies : List (Option Cookie) → Text
unfolding cookie_pairs
collect_cookies cookies = join (codes "; ") (cookie_pairs cookies)

-- `ck != nil && ck.Name == name && ck.Value != ""`
unfoldable pub matches : Text → Option Cookie → Bool
matches name none = false
matches name (some ck) = text_eq ck.name name && not (is_empty ck.value)

-- findCookie
unfoldable pub find_cookie : List (Option Cookie) → Text → Option Cookie
unfolding matches
find_cookie [] name = none
find_cookie (ck ∷ cookies) name =
    let rest = find_cookie cookies name in if matches name ck then ck else rest

-- sessionCookiesUsable
unfoldable pub session_cookies_usable : List (Option Cookie) → Bool
unfolding find_cookie
session_cookies_usable cookies = elim (find_cookie cookies cookie_anon) [
  | none ↦ false
  | some ck ↦ true
]

named_cookies : List (Option Cookie) → List Text
named_cookies [] = []
named_cookies (none ∷ cookies) = named_cookies cookies
named_cookies (some ck ∷ cookies) =
    let rest = named_cookies cookies in if is_empty ck.name then rest else ck.name ∷ rest

-- cookieNames
unfoldable pub cookie_names : List (Option Cookie) → Text
unfolding named_cookies
cookie_names cookies = join (codes ",") (named_cookies cookies)

-- net/url's Parse, `none` for an error, and a jar's Cookies are parameters.
module _ {Url : Type 0} (parse : Text → Option Url) where
  -- `if !sessionCookiesUsable(jarCookies) { return responseCookies }; return jarCookies`
  unfoldable pub usable_or : List (Option Cookie) → List (Option Cookie) → List (Option Cookie)
  unfolding session_cookies_usable
  usable_or response_cookies jar_cookies =
      if not (session_cookies_usable jar_cookies) then response_cookies else jar_cookies

  -- cookiesWithJarFallback
  unfoldable pub cookies_with_jar_fallback :
      Option (Url → List (Option Cookie)) → Text → List (Option Cookie) → List (Option Cookie)
  unfolding usable_or session_cookies_usable
  cookies_with_jar_fallback none raw_url response_cookies = response_cookies
  cookies_with_jar_fallback (some jar) raw_url response_cookies =
      if session_cookies_usable response_cookies then response_cookies else elim (parse raw_url) [
        | none ↦ response_cookies
        | some parsed ↦ usable_or response_cookies (jar parsed)
      ]
