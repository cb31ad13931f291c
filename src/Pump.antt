-- ===== src/Pump.antt =====
-- internal/copilot/conn_pump.go: the reader and the writer of a connection. The reader is a function of
-- what the connection delivers; the writer and its callers are steps on the pump's state.
pub mod Reading
pub mod Steps
pub mod Writing
pub mod Refines
pub mod Streaming
use copilot_openai_proxy.Base.{
  ℕ, ◌+◌, Bool, true, false, Option, none, some, List, [], ◌∷◌, ◌++◌, length, if◌then◌else◌,
}
use mathlib.Core.Option
use copilot_openai_proxy.Base.Int.{ℤ, pos, ltb_ℤ, pos_part}
use copilot_openai_proxy.Base.Text.{Text, codes}
use copilot_openai_proxy.Base.Unicode.{Unicode}
use copilot_openai_proxy.Errors.{Err, plain, wrapped, is_nil}
use copilot_openai_proxy.Protocol.{
  ServerEnvelope, StreamEvent, StreamEventType, event_ignore, event_append_text,
  event_start_message, event_error, event_done, event_challenge, event_image_generated, bare,
  parse_server_event,
}
use copilot_openai_proxy.Hashcash.{solve_hashcash}
use copilot_openai_proxy.Outbound.{Outgoing, answer, new_challenge_answer}
use copilot_openai_proxy.Connection.{Reads}

-- The events that the reader passes on, and the answers that it sends to challenges.
abbrev pub Read : Type 0
Read = List StreamEvent × List Outgoing

-- The event that ends readLoop; websocket.IsCloseError of a normal closure is a parameter.
unfoldable pub last_event : (Err → Bool) → Reads → StreamEvent
last_event is_normal_closure r = elim r.ended [
  | some e ↦ record (bare event_error) { error = e }
  | none ↦ if is_normal_closure r.failure then bare event_done else record (bare event_error) {
    error = wrapped (codes "copilot websocket read failed") r.failure;
  }
]

-- sha256 and the fuel of the search are those of solve_hashcash.
module _ (sha256 : Text → List ℕ) (fuel : ℕ) where
  -- What readLoop does with an event, before the rest of the frames.
  unfoldable pub handle_event : StreamEventType → StreamEvent → Option Read → Option Read
  handle_event event_challenge evt rest = elim (solve_hashcash sha256 fuel evt.challenge_param) [
    | none ↦ none
    | some a ↦ Option.map (λ (read : Read). (read.0, answer (new_challenge_answer a) ∷ read.1)) rest
  ]
  handle_event event_ignore evt rest = rest
  handle_event t evt rest = Option.map (λ (read : Read). (evt ∷ read.0, read.1)) rest

  module _ ⦃u : Unicode⦄ where
    -- The loop of readLoop; `none` where a challenge is not solved within the fuel.
    unfoldable pub read_frames : StreamEvent → List (Option ServerEnvelope) → Option Read
    unfolding handle_event parse_server_event
    read_frames last [] = some (last ∷ [], [])
    read_frames last (none ∷ frames) = read_frames last frames
    read_frames last (some env ∷ frames) =
        let evt = parse_server_event env in
        handle_event evt.event_type evt (read_frames last frames)

    -- readLoop
    unfoldable pub read_loop : (Err → Bool) → Reads → Option Read
    unfolding read_frames last_event
    read_loop is_normal_closure r = read_frames (last_event is_normal_closure r) r.frames

-- writeRequest: the number of its send, which stands for its result channel, and the message
abbrev pub WriteRequest : Type 0
WriteRequest = ℕ × Outgoing

-- The state that the goroutines of a pump share. `writes` is the channel of requests, and `issued` are
-- all that were ever put into it; `results` is what the writer has put into the result channels, nil
-- for success, and `wire` what has been written. `close_ch` says that closeCh is closed; `conn_closes`
-- counts the calls of conn.Close.
pub record Pump : Type 0 where
  pub issued : List WriteRequest
  pub writes : List WriteRequest
  pub results : List (WriteRequest × Err)
  pub wire : List WriteRequest
  pub close_ch : Bool
  pub conn_closes : ℕ
  pub writer_done : Bool

-- newConnPump, and the goroutine of writeLoop that run starts
abbrev pub new_conn_pump : Pump
new_conn_pump = record {
  issued = [];
  writes = [];
  results = [];
  wire = [];
  close_ch = false;
  conn_closes = 0;
  writer_done = false;
}

-- `make(chan writeRequest, 16)`
abbrev pub writes_capacity : ℕ
writes_capacity = 16

-- close: closeOnce runs its function the first time only
unfoldable pub close : Pump → Pump
close p = if p.close_ch then p else record p { close_ch = true; conn_closes = p.conn_closes + 1 }

-- `case p.writes <- req` of send
unfoldable pub enqueue : Outgoing → Pump → Pump
enqueue message p =
    let req : WriteRequest = (length p.issued, message) in
    record p { issued = p.issued ++ req ∷ []; writes = p.writes ++ req ∷ [] }

-- `req.result <- err`, after which writeLoop goes on, or closes the pump and returns
unfoldable pub put_result : WriteRequest → Err → Pump → Pump
unfolding close
put_result req e p =
    let p' = record p { results = p.results ++ (req, e) ∷ [] } in
    if is_nil e
    then record p' { wire = p.wire ++ req ∷ [] }
    else record (close p') { writer_done = true }

-- `case req := <-p.writes` of writeLoop, where sendEvent gives the error
unfoldable pub write_next : Err → Pump → Pump
unfolding put_result
write_next e p = elim p.writes [
  | [] ↦ p
  | req ∷ rest ↦ put_result req e (record p { writes = rest })
]

-- `case <-p.pingTick(pingTicker)` of writeLoop, where writeControl gives the error
unfoldable pub ping : Err → Pump → Pump
unfolding close
ping e p = if is_nil e then p else record (close p) { writer_done = true }

-- `case <-p.closeCh` of writeLoop
unfoldable pub stop_writer : Pump → Pump
stop_writer p = record p { writer_done = true }

-- What the first select of send yields.
pub data Queued : Type 0 where
  queued : Queued
  closed_first : Queued
  ended_first : Err → Queued

-- What the second one yields; `seen_closed` with what the inner select finds in the result channel.
pub data Answered : Type 0 where
  answered : Err → Answered
  seen_closed : Option Err → Answered
  ended : Err → Answered

abbrev pub pump_closed : Err
pump_closed = plain (codes "copilot websocket pump closed")

-- send: its result from what its selects yield
unfoldable pub send_result : Queued → Answered → Err
send_result closed_first a = pump_closed
send_result (ended_first e) a = e
send_result queued (answered e) = e
send_result queued (seen_closed (some e)) = e
send_result queued (seen_closed none) = pump_closed
send_result queued (ended e) = e

-- bumpReadDeadline, bumpWriteDeadline and the deadline of writeControl: `none` where none is set
unfoldable pub deadline_after : ℤ → ℕ → Option ℕ
deadline_after timeout now = if ltb_ℤ (pos 0) timeout then some (now + pos_part timeout) else none
