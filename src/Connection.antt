-- ===== src/Connection.antt =====
-- A WebSocket connection as internal/copilot uses it. The library gorilla/websocket is a parameter:
-- what a connection delivers and what its writes give are arguments.
use copilot_openai_proxy.Base.{ℕ, ◌+◌, Option, none, some, List, ltb, if◌then◌else◌}
use copilot_openai_proxy.Base.Int.{ℤ, pos, ltb_ℤ, pos_part}
use copilot_openai_proxy.Base.Text.{Text, codes}
use copilot_openai_proxy.Base.{[], ◌∷◌, ◌++◌, ◌||◌}
use copilot_openai_proxy.Base.Text.{text_eq, contains}
use copilot_openai_proxy.Errors.{plain, upstream_error, ok, err}
use copilot_openai_proxy.Protocol.{first_non_empty, blocked_report}
use copilot_openai_proxy.Errors.{Err, wrapped, Result, map_err, ◌>>=◌}
use copilot_openai_proxy.Protocol.{ServerEnvelope}
use copilot_openai_proxy.Outbound.{Outgoing}

-- What `conn.ReadMessage()` delivers until it fails, which it does for good: at the deadline, or when
-- either side closes the connection. The frames, `none` for one that is no JSON; the error of the last
-- read; and ctx.Err() of the reader's context at that time, `none` for nil.
pub record Reads : Type 0 where
  pub frames : List (Option ServerEnvelope)
  pub failure : Err
  pub ended : Option Err

-- sendEvent of protocol.go, with json.Marshal and the connection's WriteMessage
unfoldable pub send_event :
    (Outgoing → Result Text) → (Text → Result (Unit {0})) → Outgoing → Result (Unit {0})
send_event marshal write v = map_err (wrapped (codes "marshal event")) (marshal v) >>= write

-- `deadline.IsZero() || ctxDeadline.Before(deadline)`
abbrev earlier : ℕ → Option ℕ → Option ℕ
earlier d none = some d
earlier d (some deadline) = if ltb d deadline then some d else some deadline

-- connectedReadDeadline of client.go on the timeout, the time and ctx.Deadline(); `none` is the zero time
unfoldable pub connected_read_deadline : ℤ → ℕ → Option ℕ → Option ℕ
connected_read_deadline timeout now ctx_deadline =
    let deadline : Option ℕ =
      if ltb_ℤ (pos 0) timeout then some (now + pos_part timeout) else none in
    elim ctx_deadline [ none ↦ deadline | some d ↦ earlier d deadline ]

-- The error for an "error" event that arrives before the connection is ready.
unfoldable pub connect_error : ServerEnvelope → Err
unfolding first_non_empty
connect_error env =
    let body = first_non_empty (env.body ∷ env.text ∷ []) in
    if contains body (codes "blocked")
    then plain blocked_report
    else upstream_error (codes "copilot error during connect: " ++ body)

-- The loop of waitForConnected on the frames; `last` is what the read that fails gives.
unfoldable pub await_frames : Result (Unit {0}) → List (Option ServerEnvelope) → Result (Unit {0})
unfolding connect_error
await_frames last [] = last
await_frames last (none ∷ frames) = await_frames last frames
await_frames last (some env ∷ frames) =
    let rest = await_frames last frames in
    if text_eq env.event (codes "connected") || text_eq env.event (codes "ready")
    then ok tt
    else if text_eq env.event (codes "error")
    then err (connect_error env)
    else rest

-- The error of a read that fails: `if ctxErr := ctx.Err(); ctxErr != nil { return ctxErr }`
abbrev pub read_error : Reads → Err
read_error r = elim r.ended [
  | some e ↦ e
  | none ↦ wrapped (codes "copilot websocket read failed") r.failure
]

-- waitForConnected, from its loop on. The goroutine that closes the connection when the context ends is
-- not here: what it does is a read that fails.
unfoldable pub wait_for_connected : Reads → Result (Unit {0})
unfolding await_frames
wait_for_connected r = await_frames (err (read_error r)) r.frames
