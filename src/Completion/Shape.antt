-- ===== src/Completion/Shape.antt =====
-- The form of a streamed body, and what forwardStreamEvents of internal/copilot/stream_events.go
-- changes about it.
use copilot_openai_proxy.Base.{
  ◌≡◌, refl, ap, inl, inr, true, Option, none, some, List, [], ◌∷◌, ◌++◌, map, Bool-cases,
}
use mathlib.Core.Option
use copilot_openai_proxy.Base.Text.{Text}
use copilot_openai_proxy.Base.Unicode.{Unicode}
use copilot_openai_proxy.Protocol.{StreamEvent, StreamEventType, event_error, event_done}
use copilot_openai_proxy.Completion.{
  Selected, context_done, closed, received, Turn, emit, note_message, skip, finish, SseItem, json,
  done_marker, Stamp, role_chunk, content_chunk, stop_chunk, stream_event, stream_turn, stream_loop,
  stream_body, is_terminal, forward_stream_events,
}

-- Chunks with content, then the chunk with the finish reason, then done marker.
abbrev pub contents : Stamp → List Text → List SseItem
contents s [] = json (stop_chunk s) ∷ done_marker ∷ []
contents s (t ∷ ts) = json (content_chunk s t) ∷ contents s ts

-- The contents that a body has: one for each event that carries text, up to the event that ends it.
module _ ⦃u : Unicode⦄ where
  abbrev pub turn_texts : Turn → Option (List Text) → Option (List Text)
  turn_texts (emit t) rest = Option.map (λ ts. t ∷ ts) rest
  turn_texts (note_message id) rest = rest
  turn_texts skip rest = rest
  turn_texts (finish e) rest = some []

  unfoldable pub texts_of : List Selected → Option (List Text)
  texts_of [] = none
  texts_of (context_done e ∷ rest) = some []
  texts_of (closed ∷ rest) = some []
  texts_of (received evt ∷ rest) = turn_texts (stream_event evt.event_type evt) (texts_of rest)

  turn_shape :
      (s : Stamp) (t : Turn) (rest : Option (List SseItem)) (ts : Option (List Text))
      → rest ≡ Option.map (contents s) ts
      → stream_turn s t rest ≡ Option.map (contents s) (turn_texts t ts)
  unfolding stream_turn
  turn_shape s (emit t) rest none h = rw h
  turn_shape s (emit t) rest (some ts) h = rw h
  turn_shape s (note_message id) rest ts h = h
  turn_shape s skip rest ts h = h
  turn_shape s (finish e) rest ts h = refl

  stream_loop-contents :
      (s : Stamp) (sel : List Selected) → stream_loop s sel ≡ Option.map (contents s) (texts_of sel)
  unfolding stream_loop texts_of
  stream_loop-contents s [] = refl
  stream_loop-contents s (context_done e ∷ rest) = refl
  stream_loop-contents s (closed ∷ rest) = refl
  stream_loop-contents s (received evt ∷ rest) =
      turn_shape s (stream_event evt.event_type evt) (stream_loop s rest) (texts_of rest)
        (stream_loop-contents s rest)

  -- A finished body is the chunk with the role, one chunk for each text, one chunk with the finish
  -- reason and one done marker, in this order and nothing after it.
  pub stream_body-contents :
      (s : Stamp) (sel : List Selected)
      → stream_body s sel ≡ Option.map (λ ts. json (role_chunk s) ∷ contents s ts) (texts_of sel)
  unfolding stream_body
  stream_body-contents s sel = rw (stream_loop-contents s sel) (fuse (texts_of sel))
    where
      fuse :
          (ts : Option (List Text))
          → Option.map (λ items. json (role_chunk s) ∷ items) (Option.map (contents s) ts)
            ≡ Option.map (λ ts. json (role_chunk s) ∷ contents s ts) ts
      fuse none = refl
      fuse (some ts) = refl

  turn_cut :
      (s : Stamp) (t : StreamEventType) (evt : StreamEvent) (rest more : Option (List SseItem))
      → is_terminal t ≡ true
      → stream_turn s (stream_event t evt) rest ≡ stream_turn s (stream_event t evt) more
  unfolding stream_turn stream_event
  turn_cut s event_error evt rest more h = refl
  turn_cut s event_done evt rest more h = refl
  turn_cut s _ evt rest more h = cc

  -- As long as the context does not end while an event is being sent on, a stream reads the same from
  -- the forwarded channel, which is closed at its end, as from the source, if that is closed too.
  pub stream_loop-forward :
      (s : Stamp) (events : List StreamEvent)
      → stream_loop s (
          map received (forward_stream_events (map (λ e. (received e, true)) events))
          ++ closed ∷ [])
        ≡ stream_loop s (map received events ++ closed ∷ [])
  unfolding stream_loop forward_stream_events
  stream_loop-forward s [] = refl
  stream_loop-forward s (evt ∷ events) = elim (Bool-cases (is_terminal evt.event_type)) [
    | inl last ↦ rw last (turn_cut s evt.event_type evt _ _ last)
    | inr more ↦
        rw more
          (ap (stream_turn s (stream_event evt.event_type evt)) (stream_loop-forward s events))
  ]
