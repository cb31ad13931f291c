-- ===== src/Errors.antt =====
-- internal/copilot/errors.go and the error type of start_retry.go: Go's error values as trees, with
-- errors.Is and errors.As as the walks along Unwrap that package errors documents.
pub mod Classify
use copilot_openai_proxy.Base.{
  ℕ, ◌≡◌, refl, ◌⊎◌, inl, inr, Bool, true, false, ◌||◌, Option, none, some, [], ◌∷◌, ◌++◌,
  if◌then◌else◌,
}
use copilot_openai_proxy.Base.Text.{Text, codes}

-- The sentinels that the program compares with.
pub data Sentinel : Type 0 where
  canceled deadline_exceeded err_capacity err_timeout err_retryable_session_start : Sentinel

abbrev pub same_sentinel : Sentinel → Sentinel → Bool
same_sentinel canceled canceled = true
same_sentinel deadline_exceeded deadline_exceeded = true
same_sentinel err_capacity err_capacity = true
same_sentinel err_timeout err_timeout = true
same_sentinel err_retryable_session_start err_retryable_session_start = true
same_sentinel _ _ = false

-- A typed nil pointer does not occur, so `e == nil` in the methods is not a case here.
pub data Err : Type 0 where
  -- no error, also as an absent cause
  nil : Err
  sentinel : Sentinel → Err
  -- errors.New, and fmt.Errorf with no %w
  plain : Text → Err
  -- fmt.Errorf("<prefix>: %w", cause)
  wrapped : Text → Err → Err
  upstream_error : Text → Err
  blocked_error : Text → Err
  -- Message and Cause
  capacity_error : Text → Err → Err
  -- Operation and Cause
  timeout_error : Text → Err → Err
  -- retryableSessionStartError: message and cause
  retryable_error : Text → Err → Err
  -- an error of a library: its Timeout() if it is a net.Error, its text, what it unwraps to
  library_error : Option Bool → Text → Err → Err

-- `(T, error)` where the first part is used only without an error.
pub data Result {ℓ} (A : Type ℓ) : Type ℓ where
  ok : A → Result A
  err : Err → Result A

-- `if err != nil { return …, err }` and what follows it.
infixl 5 ◌>>=◌ ◌>>◌
abbrev pub ◌>>=◌ {ℓ κ} : {A : Type ℓ} {B : Type κ} → Result A → (A → Result B) → Result B
ok a >>= f = f a
err e >>= f = err e

abbrev pub ◌>>◌ {ℓ κ} : {A : Type ℓ} {B : Type κ} → Result A → Result B → Result B
m >> k = m >>= λ _. k

-- An error passed on as another one.
abbrev pub map_err {ℓ} : {A : Type ℓ} → (Err → Err) → Result A → Result A
map_err f (ok a) = ok a
map_err f (err e) = err (f e)

-- `if test { return …, err }`
abbrev pub refuse_if : Bool → Err → Result (Unit {0})
refuse_if true e = err e
refuse_if false e = ok tt

-- To split on a result and keep the equation.
pub Result-cases {ℓ} :
    {A : Type ℓ} (r : Result A) → ((a : A) × (r ≡ ok a)) ⊎ ((e : Err) × (r ≡ err e))
Result-cases (ok a) = inl (a, refl)
Result-cases (err e) = inr (e, refl)

abbrev pub is_nil : Err → Bool
is_nil nil = true
is_nil _ = false

abbrev pub is_empty : Text → Bool
is_empty [] = true
is_empty (c ∷ s) = false

sentinel_text : Sentinel → Text
sentinel_text canceled = codes "context canceled"
sentinel_text deadline_exceeded = codes "context deadline exceeded"
sentinel_text err_capacity = codes "copilot capacity exhausted"
sentinel_text err_timeout = codes "copilot upstream timeout"
sentinel_text err_retryable_session_start = codes "copilot retryable session start failure"

-- `err.Error()`
unfoldable pub error_text : Err → Text
unfolding sentinel_text
error_text nil = []
error_text (sentinel s) = sentinel_text s
error_text (plain text) = text
error_text (wrapped prefix cause) = prefix ++ (codes ": " ++ error_text cause)
error_text (upstream_error message) = message
error_text (blocked_error message) = message
error_text (capacity_error message cause) =
    let cause_text = error_text cause in
    if is_empty message
    then (if is_nil cause then codes "copilot capacity exhausted" else cause_text)
    else message
error_text (timeout_error operation cause) =
    if is_empty operation
    then codes "copilot upstream timeout"
    else codes "copilot " ++ (operation ++ codes " timeout")
error_text (retryable_error message cause) =
    let cause_text = error_text cause in
    if is_nil cause
    then message
    else if is_empty message
    then cause_text
    else message ++ (codes ": " ++ cause_text)
error_text (library_error timeout text cause) = text

-- errors.Is(err, target): an error of the chain is the target, or its method Is says so
unfoldable pub is : Err → Sentinel → Bool
is nil t = false
is (sentinel s) t = same_sentinel s t
is (plain _) t = false
is (wrapped _ cause) t = is cause t
is (upstream_error _) t = false
is (blocked_error _) t = false
is (capacity_error _ cause) t = same_sentinel err_capacity t || is cause t
is (timeout_error _ cause) t = same_sentinel err_timeout t || is cause t
is (retryable_error _ cause) t = same_sentinel err_retryable_session_start t || is cause t
is (library_error _ _ cause) t = is cause t

-- errors.As(err, &ue) for `*UpstreamError`: the message of the first one of the chain
unfoldable pub as_upstream : Err → Option Text
as_upstream (wrapped _ cause) = as_upstream cause
as_upstream (upstream_error message) = some message
as_upstream (capacity_error _ cause) = as_upstream cause
as_upstream (timeout_error _ cause) = as_upstream cause
as_upstream (retryable_error _ cause) = as_upstream cause
as_upstream (library_error _ _ cause) = as_upstream cause
as_upstream _ = none

-- errors.As(err, &blocked) for `*BlockedError`
unfoldable pub as_blocked : Err → Bool
as_blocked (wrapped _ cause) = as_blocked cause
as_blocked (blocked_error _) = true
as_blocked (capacity_error _ cause) = as_blocked cause
as_blocked (timeout_error _ cause) = as_blocked cause
as_blocked (retryable_error _ cause) = as_blocked cause
as_blocked (library_error _ _ cause) = as_blocked cause
as_blocked _ = false

-- errors.As(err, &netErr) for net.Error: Timeout() of the first one of the chain.
-- context.DeadlineExceeded is one, and context.Canceled is not.
unfoldable pub as_net_timeout : Err → Bool
as_net_timeout (sentinel deadline_exceeded) = true
as_net_timeout (wrapped _ cause) = as_net_timeout cause
as_net_timeout (capacity_error _ cause) = as_net_timeout cause
as_net_timeout (timeout_error _ cause) = as_net_timeout cause
as_net_timeout (retryable_error _ cause) = as_net_timeout cause
as_net_timeout (library_error (some timeout) _ cause) = timeout
as_net_timeout (library_error none _ cause) = as_net_timeout cause
as_net_timeout _ = false

unfoldable pub new_capacity_error : Text → Err → Err
new_capacity_error = capacity_error
