-- ===== src/Handler/Status.antt =====
-- Which statuses the errors of internal/copilot end in, by classifyClientError of
-- internal/openai/handler.go.
use copilot_openai_proxy.Base.{
  ℕ, ◌≡◌, refl, ◌∙◌, true, false, Option, none, some, List, [], ◌∷◌, arith,
}
use copilot_openai_proxy.Base.Text.{Text, codes, contains}
use copilot_openai_proxy.Base.Unicode.{Unicode}
use copilot_openai_proxy.Errors.{
  Err, wrapped, plain, is, as_upstream, as_blocked, as_net_timeout, is_nil, deadline_exceeded,
  new_capacity_error,
}
use copilot_openai_proxy.Errors.Classify.{is_blocked, is_capacity, is_timeout, is_client_canceled}
use copilot_openai_proxy.Protocol.{error_of_body, blocked_report}
use copilot_openai_proxy.Handler.{ErrorReply, write_client_error, classify_client_error}

-- `fmt.Errorf("…: %w", err)`, any number of times.
abbrev pub wrap_all : List Text → Err → Err
wrap_all [] e = e
wrap_all (p ∷ ps) e = wrapped p (wrap_all ps e)

module _ ⦃u : Unicode⦄ where
  -- Wrapping an error changes its text and nothing that the program classifies it by.
  wrapped_class :
      (ps : List Text) (e : Err)
      → (is_client_canceled (wrap_all ps e) ≡ is_client_canceled e)
        × (is_blocked (wrap_all ps e) ≡ is_blocked e)
        × (is_capacity (wrap_all ps e) ≡ is_capacity e)
        × (is_timeout (wrap_all ps e) ≡ is_timeout e)
  unfolding is_client_canceled is_blocked is_capacity is_timeout is as_upstream as_blocked
      as_net_timeout
  wrapped_class [] e = (refl, refl, refl, refl)
  wrapped_class (p ∷ ps) e = wrapped_class ps e

  -- What a client sees of an error but its message.
  abbrev pub seen : Option ErrorReply → Option (ℕ × Text × Option Text)
  seen none = none
  seen (some r) = some (r.status, r.error_type, r.retry_after)

  wrapped_not_nil : (ps : List Text) (e : Err) → is_nil e ≡ false → is_nil (wrap_all ps e) ≡ false
  wrapped_not_nil [] e h = h
  wrapped_not_nil (p ∷ ps) e h = refl

  -- However often an error that is not nil is wrapped on its way up, the status, the error type and the
  -- Retry-After header of the response are those of the error at its root, and it is dropped if that is.
  pub status_wrapped :
      (ps : List Text) (e : Err)
      → is_nil e ≡ false
      → seen (write_client_error (classify_client_error (wrap_all ps e)))
        ≡ seen (write_client_error (classify_client_error e))
  unfolding write_client_error classify_client_error
  status_wrapped ps e h =
      let (a, b, c, d) = wrapped_class ps e in
      rw (wrapped_not_nil ps e h, h, a, b, c, d) (ground arith)

  -- An error of capacity that comes from a context's deadline, whatever its message and however often
  -- it is wrapped, is answered with 503 and Retry-After 1, not with the 504 of other deadlines.
  pub capacity_deadline_status :
      (ps : List Text) (message : Text)
      → seen (
          write_client_error (
            classify_client_error
              (wrap_all ps (new_capacity_error message (Err.sentinel deadline_exceeded)))))
        ≡ some (503, codes "server_error", some (codes "1"))
  capacity_deadline_status ps message =
      status_wrapped ps (new_capacity_error message (Err.sentinel deadline_exceeded))
        (unfold new_capacity_error in refl)
      ∙ (unfold write_client_error classify_client_error new_capacity_error is_client_canceled
            is_blocked is_capacity is as_upstream as_blocked in
          refl)

  -- The report that the program makes of an "error" event whose body contains "blocked", however often
  -- it is wrapped, is not one that IsBlocked accepts, and is answered with 502.
  pub blocked_body_status :
      (ps : List Text) (body : Text)
      → contains body (codes "blocked") ≡ true
      → (is_blocked (wrap_all ps (error_of_body body)) ≡ false)
        × (seen (write_client_error (classify_client_error (wrap_all ps (error_of_body body))))
            ≡ some (502, codes "server_error", none))
  unfolding error_of_body
  blocked_body_status ps body h = rw h (
    (wrapped_class ps (plain blocked_report)).1
        ∙ (unfold is_blocked as_blocked as_upstream in refl),
    status_wrapped ps (plain blocked_report) refl
        ∙ (unfold write_client_error classify_client_error is_client_canceled is_blocked is_capacity
              is_timeout is as_upstream as_blocked as_net_timeout in
            refl),
  )
