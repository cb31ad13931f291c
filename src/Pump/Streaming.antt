-- ===== src/Pump/Streaming.antt =====
-- From the frames of a connection to the stream of internal/openai/handler.go: the reader of
-- conn_pump.go, forwardStreamEvents of stream_events.go and streamResponse, one after the other.
use copilot_openai_proxy.Base.{
  ℕ, ◌≡◌, refl, sym, ap, ◌∙◌, Bool, true, Option, none, some, List, [], ◌∷◌, ◌++◌, map,
}
use mathlib.Core.Option
use copilot_openai_proxy.Base.Text.{Text}
use copilot_openai_proxy.Base.Unicode.{Unicode}
use copilot_openai_proxy.Errors.{Err}
use copilot_openai_proxy.Protocol.{StreamEvent}
use copilot_openai_proxy.Completion.{
  Selected, context_done, closed, received, Completed, Turn, emit, note_message, skip, finish,
  complete_event, complete_turn, complete_loop, SseItem, Stamp, stream_body, forward_stream_events,
}
use copilot_openai_proxy.Errors.{ok}
use copilot_openai_proxy.Requests.{event_stream, stream_response_of}
use copilot_openai_proxy.Completion.Laws.{
  stream_text, then_streamed, completed_text, stream_text-complete_loop,
}
use copilot_openai_proxy.Completion.Shape.{stream_loop-forward}
use copilot_openai_proxy.Connection.{Reads}
use copilot_openai_proxy.Pump.{last_event, read_loop}
use copilot_openai_proxy.Pump.Reading.{
  passed_on, parsed, challenges, Solved, answer_messages, text_until_end, connection_completes,
}

-- The events that streamResponse sees: forwarded one by one, and then the closed channel.
abbrev pub forwarded : List StreamEvent → List Selected
forwarded events =
    map received (forward_stream_events (map (λ e. (received e, true)) events)) ++ closed ∷ []

-- A stream that ended, from the text that it amounts to.
streamed_items :
    (o : Option (List SseItem)) (t : Text)
    → then_streamed [] o ≡ some t
    → (items : List SseItem) × (o ≡ some items) × (stream_text items ≡ t)
streamed_items none t h = cc
streamed_items (some items) t h = (items, refl, cc)

module _ ⦃u : Unicode⦄ where
  turn_returns :
      (t : Turn) (continue more : Text → Text → Option Completed) (b id : Text) (c : Completed)
      → ((b id : Text) (c : Completed) → continue b id ≡ some c → more b id ≡ some c)
      → complete_turn t continue b id ≡ some c
      → complete_turn t more b id ≡ some c
  unfolding complete_turn
  turn_returns (emit t) continue more b id c h e = h (b ++ t) id c e
  turn_returns (note_message id') continue more b id c h e = h b id' c e
  turn_returns skip continue more b id c h e = h b id c e
  turn_returns (finish err) continue more b id c h e = e

  -- Once Complete returns it takes no more events.
  loop_returns :
      (sel more : List Selected) (b id : Text) (c : Completed)
      → complete_loop sel b id ≡ some c
      → complete_loop (sel ++ more) b id ≡ some c
  unfolding complete_loop
  loop_returns [] more b id c h = cc
  loop_returns (context_done e ∷ rest) more b id c h = h
  loop_returns (closed ∷ rest) more b id c h = h
  loop_returns (received evt ∷ rest) more b id c h =
      turn_returns (complete_event evt.event_type evt) (complete_loop rest)
        (complete_loop (rest ++ more)) b id c (λ b id c e. loop_returns rest more b id c e) h

  -- As long as every challenge is solved within the fuel, the request's context does not end and the
  -- writer flushes, the answer of streamResponse to the events of a connection is a stream that ends, and
  -- the contents of its chunks, put together, are the text that the frames carry up to the first "done"
  -- or "error", however the connection fails after them.
  pub connection_streams :
      (sha256 : Text → List ℕ) (fuel : ℕ) (s : Stamp) (is_normal_closure : Err → Bool) (r : Reads)
      (answers : List Text)
      → Solved sha256 fuel (challenges (parsed sha256 fuel r.frames)) answers
      → (events : List StreamEvent) × (items : List SseItem) × (read_loop sha256 fuel
            is_normal_closure r
          ≡ some (events, answer_messages answers))
        × (stream_response_of true s (ok (forwarded events)) ≡ some (event_stream items))
        × (stream_text items ≡ text_until_end (parsed sha256 fuel r.frames))
  unfolding stream_response_of stream_body
  connection_streams sha256 fuel s is_normal_closure r answers h =
      let events =
        passed_on sha256 fuel (parsed sha256 fuel r.frames)
        ++ last_event is_normal_closure r ∷ [] in
      let (reads, completes) = connection_completes sha256 fuel is_normal_closure r answers h in
      let same : stream_body s (forwarded events)
          ≡ stream_body s (map received events ++ closed ∷ []) =
        ap (Option.map _) (stream_loop-forward s events) in
      let text =
        ap (then_streamed []) same
        ∙ sym (stream_text-complete_loop s (map received events ++ closed ∷ []))
        ∙ ap completed_text (loop_returns (map received events) (closed ∷ []) [] [] _ completes) in
      let (items, ends, carried) = streamed_items (stream_body s (forwarded events)) _ text in
      (events, items, reads, ap (Option.map event_stream) ends, carried)
