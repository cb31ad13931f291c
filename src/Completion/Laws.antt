-- ===== src/Completion/Laws.antt =====
-- A streamed completion and a whole one: streamResponse of internal/openai/handler.go against Complete
-- of internal/copilot/client.go on the same events.
use copilot_openai_proxy.Base.{
  ◌≡◌, refl, sym, ap, ◌∙◌, inl, inr, true, Option, none, some, List, [], ◌∷◌, ◌++◌, Bool-cases,
}
use mathlib.Core.Option
use mathlib.Core.List.{append-nil, append_assoc}
use copilot_openai_proxy.Base.Text.{Text}
use copilot_openai_proxy.Base.Unicode.{Unicode}
use copilot_openai_proxy.Errors.{is_empty}
use copilot_openai_proxy.Protocol.{
  StreamEvent, StreamEventType, event_ignore, event_append_text, event_start_message, event_error,
  event_done, event_challenge, event_image_generated, image_markdown,
}
use copilot_openai_proxy.Completion.{
  Selected, context_done, closed, received, Completed, complete_event, complete_turn, complete_loop,
  SseItem, json, done_marker, Stamp, role_chunk, content_chunk, stream_event, stream_turn,
  stream_loop, stream_body,
}

-- The text that a client reads off a stream.
abbrev pub stream_text : List SseItem → Text
stream_text [] = []
stream_text (json c ∷ items) = c.delta_content ++ stream_text items
stream_text (done_marker ∷ items) = stream_text items

is_empty_nil : (t : Text) → is_empty t ≡ true → t ≡ []
is_empty_nil [] e = refl
is_empty_nil (c ∷ t) e = cc

-- The text so far and what a finished stream adds to it; `none` while the stream is open.
abbrev pub then_streamed : Text → Option (List SseItem) → Option Text
then_streamed b none = none
then_streamed b (some items) = some (b ++ stream_text items)

abbrev pub completed_text : Option Completed → Option Text
completed_text none = none
completed_text (some c) = some c.text

then_streamed-content :
    (s : Stamp) (b t : Text) (rest : Option (List SseItem))
    → then_streamed (b ++ t) rest
      ≡ then_streamed b (Option.map (λ items. json (content_chunk s t) ∷ items) rest)
then_streamed-content s b t none = refl
then_streamed-content s b t (some items) = ap some (append_assoc b t (stream_text items))

then_streamed-nil :
    (b : Text) (rest : Option (List SseItem)) → then_streamed (b ++ []) rest ≡ then_streamed b rest
then_streamed-nil b rest = ap (λ (t : Text). then_streamed t rest) (append-nil b)

module _ ⦃u : Unicode⦄ where
  -- One event brings both loops on by the same text, or ends both.
  turn_in_step :
      (s : Stamp) (t : StreamEventType) (evt : StreamEvent) (b message_id : Text)
      (rest : Option (List SseItem)) (continue : Text → Text → Option Completed)
      → ((b message_id : Text) → completed_text (continue b message_id) ≡ then_streamed b rest)
      → completed_text (complete_turn (complete_event t evt) continue b message_id)
        ≡ then_streamed b (stream_turn s (stream_event t evt) rest)
  unfolding complete_turn complete_event stream_turn stream_event
  turn_in_step s event_append_text evt b id rest continue h =
      h (b ++ evt.text) id ∙ then_streamed-content s b evt.text rest
  turn_in_step s event_image_generated evt b id rest continue h =
      elim (Bool-cases (is_empty (image_markdown evt.image_url))) [
        | inl blank ↦
            let no_text : image_markdown evt.image_url ≡ [] = is_empty_nil _ blank in
            rw blank (
              h _ id
              ∙ (ap (λ (t : Text). then_streamed (b ++ t) rest) no_text ∙ then_streamed-nil b rest))
        | inr content ↦
            rw content (h _ id ∙ then_streamed-content s b (image_markdown evt.image_url) rest)
      ]
  turn_in_step s event_start_message evt b id rest continue h = h b evt.message_id
  turn_in_step s event_ignore evt b id rest continue h = h b id
  turn_in_step s event_challenge evt b id rest continue h = h b id
  turn_in_step s event_error evt b id rest continue h = ap some (sym (append-nil b))
  turn_in_step s event_done evt b id rest continue h = ap some (sym (append-nil b))

  loops_in_step :
      (s : Stamp) (sel : List Selected) (b message_id : Text)
      → completed_text (complete_loop sel b message_id) ≡ then_streamed b (stream_loop s sel)
  unfolding complete_loop stream_loop
  loops_in_step s [] b id = refl
  loops_in_step s (context_done e ∷ rest) b id = ap some (sym (append-nil b))
  loops_in_step s (closed ∷ rest) b id = ap some (sym (append-nil b))
  loops_in_step s (received evt ∷ rest) b id =
      turn_in_step s evt.event_type evt b id (stream_loop s rest) (complete_loop rest)
        (loops_in_step s rest)

  -- On the same events a stream ends exactly when Complete returns, and then the contents of its
  -- chunks, put together, are the text that Complete returns, also where an error or the context ends
  -- them.
  pub stream_text-complete_loop :
      (s : Stamp) (sel : List Selected)
      → completed_text (complete_loop sel [] []) ≡ then_streamed [] (stream_body s sel)
  unfolding stream_body
  stream_text-complete_loop s sel = loops_in_step s sel [] [] ∙ body_text (stream_loop s sel)
    where
      body_text :
          (rest : Option (List SseItem))
          → then_streamed [] rest
            ≡ then_streamed [] (Option.map (λ items. json (role_chunk s) ∷ items) rest)
      body_text none = refl
      body_text (some items) = refl
