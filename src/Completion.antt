-- ===== src/Completion.antt =====
-- The consumers of the events of a prompt: Complete of internal/copilot/client.go,
-- forwardStreamEvents of stream_events.go, and the loop of streamResponse of internal/openai/handler.go.
pub mod Laws
pub mod Shape
use copilot_openai_proxy.Base.{
  ℕ, Bool, true, false, Option, none, some, List, [], ◌∷◌, ◌++◌, if◌then◌else◌,
}
use mathlib.Core.Option
use copilot_openai_proxy.Base.Text.{Text, codes}
use copilot_openai_proxy.Base.Unicode.{Unicode}
use copilot_openai_proxy.Errors.{Err, is_empty}
use copilot_openai_proxy.Images.{ImageInput}
use copilot_openai_proxy.Protocol.{
  StreamEvent, StreamEventType, event_ignore, event_append_text, event_start_message, event_error,
  event_done, event_challenge, event_image_generated, image_markdown,
}

-- CompletionInput of internal/copilot/client.go
pub record CompletionInput : Type 0 where
  pub prompt : Text
  pub conversation_id : Text
  pub mode : Text
  pub stream : Bool
  pub stream_model : Text
  pub images : List ImageInput

-- What a `select` on the request's context and the channel of events yields.
pub data Selected : Type 0 where
  -- `<-ctx.Done()`, with ctx.Err()
  context_done : Err → Selected
  -- the channel is closed
  closed : Selected
  received : StreamEvent → Selected

-- The result of Complete: text, message ID, error; and whether the session was invalidated.
pub record Completed : Type 0 where
  pub text : Text
  pub message_id : Text
  pub error : Err
  pub invalidated : Bool

-- What a round of a consumer's loop does.
pub data Turn : Type 0 where
  -- write the text and go on
  emit : Text → Turn
  note_message : Text → Turn
  skip : Turn
  finish : Err → Turn

module _ ⦃u : Unicode⦄ where
  -- The switch of Complete on an event.
  unfoldable pub complete_event : StreamEventType → StreamEvent → Turn
  complete_event event_append_text evt = emit evt.text
  complete_event event_image_generated evt = emit (image_markdown evt.image_url)
  complete_event event_start_message evt = note_message evt.message_id
  complete_event event_error evt = finish evt.error
  complete_event event_done evt = finish Err.nil
  complete_event event_ignore evt = skip
  complete_event event_challenge evt = skip

  -- A turn of Complete; `continue` is the loop on the text and the message ID collected.
  unfoldable pub complete_turn :
      Turn → (Text → Text → Option Completed) → Text → Text → Option Completed
  complete_turn (emit t) continue b message_id = continue (b ++ t) message_id
  complete_turn (note_message id) continue b message_id = continue b id
  complete_turn skip continue b message_id = continue b message_id
  complete_turn (finish e) continue b message_id =
      some (record { text = b; message_id = message_id; error = e; invalidated = false })

  -- The loop of Complete from the text and the message ID that it has collected, on what its selects
  -- yield; `none` means that it still waits at the end of the list.
  unfoldable pub complete_loop : List Selected → Text → Text → Option Completed
  unfolding complete_turn complete_event
  complete_loop [] b message_id = none
  complete_loop (context_done e ∷ rest) b message_id =
      some (record { text = b; message_id = message_id; error = e; invalidated = true })
  complete_loop (closed ∷ rest) b message_id =
      some (record { text = b; message_id = message_id; error = Err.nil; invalidated = false })
  complete_loop (received evt ∷ rest) b message_id =
      complete_turn (complete_event evt.event_type evt) (complete_loop rest) b message_id

  -- The switch of streamResponse on an event: an error ends the stream like "done" does.
  unfoldable pub stream_event : StreamEventType → StreamEvent → Turn
  stream_event event_append_text evt = emit evt.text
  stream_event event_image_generated evt =
      let content = image_markdown evt.image_url in if is_empty content then skip else emit content
  stream_event event_error evt = finish evt.error
  stream_event event_done evt = finish Err.nil
  stream_event event_start_message evt = skip
  stream_event event_ignore evt = skip
  stream_event event_challenge evt = skip

-- ChatCompletionChunk, with its one choice.
pub record Chunk : Type 0 where
  pub id : Text
  pub created : ℕ
  pub model : Text
  pub delta_role : Text
  pub delta_content : Text
  pub finish_reason : Option Text

-- What SSEWriter writes: `data: <json>` and the line that ends a stream.
pub data SseItem : Type 0 where
  json : Chunk → SseItem
  done_marker : SseItem

-- A request's completion ID, creation time and model.
pub record Stamp : Type 0 where
  pub id : Text
  pub created : ℕ
  pub model : Text

abbrev pub chunk : Stamp → Chunk
chunk s = record {
  id = s.id;
  created = s.created;
  model = s.model;
  delta_role = [];
  delta_content = [];
  finish_reason = none;
}

abbrev pub role_chunk : Stamp → Chunk
role_chunk s = record (chunk s) { delta_role = codes "assistant" }

abbrev pub content_chunk : Stamp → Text → Chunk
content_chunk s content = record (chunk s) { delta_content = content }

abbrev pub stop_chunk : Stamp → Chunk
stop_chunk s = record (chunk s) { finish_reason = some (codes "stop") }

-- writeStreamDone
abbrev pub write_stream_done : Stamp → List SseItem
write_stream_done s = json (stop_chunk s) ∷ done_marker ∷ []

module _ ⦃u : Unicode⦄ where
  unfoldable pub stream_turn : Stamp → Turn → Option (List SseItem) → Option (List SseItem)
  stream_turn s (emit t) rest = Option.map (λ items. json (content_chunk s t) ∷ items) rest
  stream_turn s (note_message id) rest = rest
  stream_turn s skip rest = rest
  stream_turn s (finish e) rest = some (write_stream_done s)

  -- The loop of streamResponse, with what it writes.
  unfoldable pub stream_loop : Stamp → List Selected → Option (List SseItem)
  unfolding stream_turn stream_event
  stream_loop s [] = none
  stream_loop s (context_done e ∷ rest) = some (write_stream_done s)
  stream_loop s (closed ∷ rest) = some (write_stream_done s)
  stream_loop s (received evt ∷ rest) =
      stream_turn s (stream_event evt.event_type evt) (stream_loop s rest)

  -- The body of a stream: the chunk with the role, and the loop.
  unfoldable pub stream_body : Stamp → List Selected → Option (List SseItem)
  unfolding stream_loop
  stream_body s sel = Option.map (λ items. json (role_chunk s) ∷ items) (stream_loop s sel)

abbrev pub is_terminal : StreamEventType → Bool
is_terminal event_done = true
is_terminal event_error = true
is_terminal _ = false

-- forwardStreamEvents: what its outer selects yield, each event with whether its sending came before
-- the end of the context; and the events that it sends on.
unfoldable pub forward_stream_events : List (Selected × Bool) → List StreamEvent
forward_stream_events [] = []
forward_stream_events ((context_done e, sent) ∷ rest) = []
forward_stream_events ((closed, sent) ∷ rest) = []
forward_stream_events ((received evt, false) ∷ rest) = []
forward_stream_events ((received evt, true) ∷ rest) =
    let more = forward_stream_events rest in evt ∷ (if is_terminal evt.event_type then [] else more)
