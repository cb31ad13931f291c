-- ===== src/Cookies/Laws.antt =====
-- When the cookies that a session goes on with are usable: internal/copilot/cookies.go.
use copilot_openai_proxy.Base.{
  if◌then◌else◌, ◌≡◌, refl, Bool, true, false, ◌||◌, Option, none, some, List, [], ◌∷◌, inl, inr,
  any, arith, Option-cases,
}
use copilot_openai_proxy.Base.Text.{Text}
use copilot_openai_proxy.Cookies.{
  Cookie, cookie_anon, matches, find_cookie, session_cookies_usable, usable_or,
  cookies_with_jar_fallback,
}

-- The cookies that the jar has for a text, if there is a jar and the text is a URL.
abbrev pub jar_cookies :
    {Url : Type 0}
    → (Text → Option Url)
    → Option (Url → List (Option Cookie))
    → Text
    → List (Option Cookie)
jar_cookies parse none raw_url = []
jar_cookies parse (some jar) raw_url = elim (parse raw_url) [ none ↦ [] | some parsed ↦ jar parsed ]

is_found : Option Cookie → Bool
is_found none = false
is_found (some ck) = true

-- A list is usable exactly when one of its cookies is the anonymous one with a value.
found_matches :
    (cookies : List (Option Cookie)) (name : Text)
    → is_found (find_cookie cookies name) ≡ any (matches name) cookies
unfolding find_cookie matches is_found
found_matches [] name = refl
found_matches (none ∷ cookies) name = found_matches cookies name
found_matches (some ck ∷ cookies) name = ground (arith, found_matches cookies name)

usable_any :
    (cookies : List (Option Cookie))
    → session_cookies_usable cookies ≡ any (matches cookie_anon) cookies
unfolding session_cookies_usable is_found
usable_any cookies = found_matches cookies cookie_anon

-- The cookies that a session goes on with are the response's if one of them is the anonymous cookie
-- with a value, else the jar's if one of those is, else the response's again; so they are usable
-- exactly when the response's or the jar's have that cookie.
pub cookies_with_jar_fallback-usable :
    {Url : Type 0} (parse : Text → Option Url) (jar : Option (Url → List (Option Cookie)))
    (raw_url : Text) (response : List (Option Cookie))
    → let cookies = cookies_with_jar_fallback parse jar raw_url response in
      let stored = jar_cookies parse jar raw_url in
      (cookies ≡ (
        if any (matches cookie_anon) response
        then response
        else if any (matches cookie_anon) stored
        then stored
        else response))
      × (session_cookies_usable cookies
          ≡ any (matches cookie_anon) response || any (matches cookie_anon) stored)
unfolding cookies_with_jar_fallback usable_or
cookies_with_jar_fallback-usable parse none raw_url response =
    (ground (arith, usable_any response), ground (arith, usable_any response))
cookies_with_jar_fallback-usable parse (some jar) raw_url response =
    elim (Option-cases (parse raw_url)) [
      | inl e ↦ rw e (ground (arith, usable_any response), ground (arith, usable_any response))
      | inr (parsed, e) ↦ rw e (
        ground (arith, usable_any response, usable_any (jar parsed)),
        ground (arith, usable_any response, usable_any (jar parsed)),
      )
    ]
