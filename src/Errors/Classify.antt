-- ===== src/Errors/Classify.antt =====
-- The predicates of internal/copilot/errors.go.
use copilot_openai_proxy.Base.{Bool, false, ◌||◌, Option, none, some}
use copilot_openai_proxy.Base.Text.{Text, codes, contains}
use copilot_openai_proxy.Base.Unicode.{Unicode, lower}
use copilot_openai_proxy.Errors.{
  Err, is, as_upstream, as_blocked, as_net_timeout, canceled, deadline_exceeded, err_capacity,
  err_timeout,
}

module _ ⦃u : Unicode⦄ where
  mentions_blocked : Option Text → Bool
  mentions_blocked none = false
  mentions_blocked (some message) = contains (lower message) (codes "blocked")

  unfoldable pub is_blocked : Err → Bool
  unfolding mentions_blocked
  is_blocked e = as_blocked e || mentions_blocked (as_upstream e)

  mentions_capacity : Option Text → Bool
  mentions_capacity none = false
  mentions_capacity (some message) =
      contains (lower message) (codes "too-many-messages")
      || contains (lower message) (codes "too many messages")

  unfoldable pub is_capacity : Err → Bool
  unfolding mentions_capacity
  is_capacity e = is e err_capacity || mentions_capacity (as_upstream e)

unfoldable pub is_timeout : Err → Bool
is_timeout e = (is e err_timeout || is e deadline_exceeded) || as_net_timeout e

unfoldable pub is_client_canceled : Err → Bool
is_client_canceled e = is e canceled
