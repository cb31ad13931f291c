-- ===== src/Handler.antt =====
-- internal/openai/handler.go and sse.go: how an error of the client becomes an HTTP response.
pub mod Status
use copilot_openai_proxy.Base.{ℕ, Bool, true, false, Option, none, some, [], if◌then◌else◌}
use copilot_openai_proxy.Base.Text.{Text, codes}
use copilot_openai_proxy.Base.Unicode.{Unicode}
use copilot_openai_proxy.Errors.{Err, error_text, is_nil, is_empty}
use copilot_openai_proxy.Errors.Classify.{is_blocked, is_capacity, is_timeout, is_client_canceled}

pub record ClientErrorResponse : Type 0 where
  pub status_code : ℕ
  pub err_type : Text
  pub message : Text
  pub retry_after : Text
  pub swallow : Bool

abbrev pub response_of : ℕ → Text → Err → ClientErrorResponse
response_of status_code err_type e = record {
  status_code = status_code;
  err_type = err_type;
  message = error_text e;
  retry_after = [];
  swallow = false;
}

-- The zero value of clientErrorResponse.
abbrev pub no_response : ClientErrorResponse
no_response = record {
  status_code = 0;
  err_type = [];
  message = [];
  retry_after = [];
  swallow = false;
}

-- An error response as WriteError puts it on the wire, with the Retry-After header if there is one.
pub record ErrorReply : Type 0 where
  pub status : ℕ
  pub error_type : Text
  pub message : Text
  pub retry_after : Option Text

-- writeClientError: nothing is written for a response to swallow.
unfoldable pub write_client_error : ClientErrorResponse → Option ErrorReply
write_client_error resp =
    if resp.swallow
    then none
    else some (record {
      status = resp.status_code;
      error_type = resp.err_type;
      message = resp.message;
      retry_after = if is_empty resp.retry_after then none else some resp.retry_after;
    })

module _ ⦃u : Unicode⦄ where
  -- classifyClientError
  unfoldable pub classify_client_error : Err → ClientErrorResponse
  classify_client_error e =
      if is_nil e
      then no_response
      else if is_client_canceled e
      then record no_response { swallow = true }
      else if is_blocked e
      then response_of 403 (codes "authentication_error") e
      else if is_capacity e
      then record (response_of 503 (codes "server_error") e) { retry_after = codes "1" }
      else if is_timeout e
      then response_of 504 (codes "server_error") e
      else response_of 502 (codes "server_error") e
