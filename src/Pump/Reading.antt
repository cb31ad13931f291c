-- ===== src/Pump/Reading.antt =====
-- What the reader of internal/copilot/conn_pump.go passes on, and what Complete of client.go makes of it.
use copilot_openai_proxy.Base.{
  ℕ, ◌≡◌, refl, ◌∙◌, Bool, true, false, Option, none, some, List, [], ◌∷◌, ◌++◌, map, keep,
  Bool-cases, Option-cases, inl, inr,
}
use mathlib.Core.List.{append-nil, append_assoc}
use copilot_openai_proxy.Base.Text.{Text}
use copilot_openai_proxy.Base.Unicode.{Unicode}
use copilot_openai_proxy.Errors.{Err}
use copilot_openai_proxy.Protocol.{
  ServerEnvelope, StreamEvent, StreamEventType, event_ignore, event_append_text,
  event_start_message, event_error, event_done, event_challenge, event_image_generated,
  parse_server_event, image_markdown,
}
use copilot_openai_proxy.Hashcash.{solve_hashcash}
use copilot_openai_proxy.Outbound.{Outgoing, answer, new_challenge_answer}
use copilot_openai_proxy.Completion.{
  received, Completed, complete_event, complete_turn, complete_loop, finish,
}
use copilot_openai_proxy.Connection.{Reads}
use copilot_openai_proxy.Pump.{Read, last_event, handle_event, read_frames, read_loop}

-- The events that a consumer sees.
abbrev pub passes : StreamEventType → Bool
passes event_ignore = false
passes event_challenge = false
passes _ = true

abbrev pub challenge_of : StreamEventType → StreamEvent → List Text → List Text
challenge_of event_challenge evt rest = evt.challenge_param ∷ rest
challenge_of _ evt rest = rest

-- The parameters of the challenges, in order.
abbrev pub challenges : List StreamEvent → List Text
challenges [] = []
challenges (evt ∷ evts) = challenge_of evt.event_type evt (challenges evts)

abbrev pub answer_messages : List Text → List Outgoing
answer_messages = map (λ a. answer (new_challenge_answer a))

-- The text of a completion: what its events carry up to the one that ends it.
abbrev pub text_of : ⦃u : Unicode⦄ → StreamEventType → StreamEvent → Text → Text
text_of event_append_text evt rest = evt.text ++ rest
text_of event_image_generated evt rest = image_markdown evt.image_url ++ rest
text_of event_done evt rest = []
text_of event_error evt rest = []
text_of _ evt rest = rest

abbrev pub text_until_end : ⦃u : Unicode⦄ → List StreamEvent → Text
text_until_end [] = []
text_until_end (evt ∷ evts) = text_of evt.event_type evt (text_until_end evts)

-- The error with which it ends; `other` where no event ends it.
abbrev pub error_of : StreamEventType → StreamEvent → Err → Err
error_of event_done evt rest = Err.nil
error_of event_error evt rest = evt.error
error_of _ evt rest = rest

abbrev pub error_at_end : List StreamEvent → Err → Err
error_at_end [] other = other
error_at_end (evt ∷ evts) other = error_of evt.event_type evt (error_at_end evts other)

-- The message ID of the last "startMessage" before the end, or the one from before.
abbrev pub id_of : StreamEventType → StreamEvent → (Text → Text) → Text → Text
id_of event_start_message evt rest id = rest evt.message_id
id_of event_done evt rest id = id
id_of event_error evt rest id = id
id_of _ evt rest id = rest id

abbrev pub message_id_at_end : List StreamEvent → Text → Text
message_id_at_end [] id = id
message_id_at_end (evt ∷ evts) id = id_of evt.event_type evt (message_id_at_end evts) id

module _ ⦃u : Unicode⦄ (sha256 : Text → List ℕ) (fuel : ℕ) where
  -- The events that the frames are, those that are no JSON left out.
  abbrev pub parsed : List (Option ServerEnvelope) → List StreamEvent
  parsed [] = []
  parsed (none ∷ frames) = parsed frames
  parsed (some env ∷ frames) = parse_server_event env ∷ parsed frames

  -- Every challenge is solved within the fuel, with these answers.
  abbrev pub Solved : List Text → List Text → Type 0
  Solved [] [] = Unit
  Solved (param ∷ params) (a ∷ answers) =
      (solve_hashcash sha256 fuel param ≡ some a) × Solved params answers
  Solved _ _ = ⊥

  abbrev pub passed_on : List StreamEvent → List StreamEvent
  passed_on = keep (λ evt. passes evt.event_type)

  handle_event-reads :
      (last : StreamEvent) (t : StreamEventType) (evt : StreamEvent) (evts : List StreamEvent)
      (rest : Option Read) (answers : List Text)
      → evt.event_type ≡ t
      → Solved (challenge_of t evt (challenges evts)) answers
      → ((answers : List Text)
          → Solved (challenges evts) answers
          → rest ≡ some (passed_on evts ++ last ∷ [], answer_messages answers))
      → handle_event sha256 fuel t evt rest
        ≡ some (passed_on (evt ∷ evts) ++ last ∷ [], answer_messages answers)
  unfolding handle_event
  handle_event-reads last event_challenge evt evts rest (a ∷ answers) e (now, later) h =
      rw (now, handle_event, h answers later, e) refl
  handle_event-reads last event_challenge evt evts rest [] e h k = absurd h
  handle_event-reads last event_ignore evt evts rest answers e s h = rw e (h answers s)
  handle_event-reads last event_append_text evt evts rest answers e s h = rw (e, h answers s) refl
  handle_event-reads last event_start_message evt evts rest answers e s h = rw (e, h answers s) refl
  handle_event-reads last event_error evt evts rest answers e s h = rw (e, h answers s) refl
  handle_event-reads last event_done evt evts rest answers e s h = rw (e, h answers s) refl
  handle_event-reads last event_image_generated evt evts rest answers e s h =
      rw (e, h answers s) refl

  read_frames_lem :
      (last : StreamEvent) (frames : List (Option ServerEnvelope)) (answers : List Text)
      → Solved (challenges (parsed frames)) answers
      → read_frames sha256 fuel last frames
        ≡ some (passed_on (parsed frames) ++ last ∷ [], answer_messages answers)
  unfolding read_frames
  read_frames_lem last [] [] h = refl
  read_frames_lem last [] (a ∷ answers) h = absurd h
  read_frames_lem last (none ∷ frames) answers h = read_frames_lem last frames answers h
  read_frames_lem last (some env ∷ frames) answers h =
      let evt = parse_server_event env in
      handle_event-reads last evt.event_type evt (parsed frames)
        (read_frames sha256 fuel last frames) answers refl h (read_frames_lem last frames)

  -- What Complete returns once the events are read, from the text and the message ID so far.
  abbrev finished : List StreamEvent → Err → Text → Text → Completed
  finished evts other b id = record {
    text = b ++ text_until_end evts;
    message_id = message_id_at_end evts id;
    error = error_at_end evts other;
    invalidated = false;
  }

  turn_finishes :
      (t : StreamEventType) (evt : StreamEvent) (evts : List StreamEvent) (other : Err)
      (b id : Text) (continue : Text → Text → Option Completed)
      → evt.event_type ≡ t
      → ((b id : Text) → continue b id ≡ some (finished evts other b id))
      → complete_turn (complete_event t evt) continue b id ≡ some (finished (evt ∷ evts) other b id)
  unfolding complete_turn complete_event
  turn_finishes event_append_text evt evts other b id continue e h =
      rw (e, h (b ++ evt.text) id, append_assoc b evt.text (text_until_end evts)) refl
  turn_finishes event_image_generated evt evts other b id continue e h =
      rw
        (
          e,
          h (b ++ image_markdown evt.image_url) id,
          append_assoc b (image_markdown evt.image_url) (text_until_end evts),
        )
        refl
  turn_finishes event_start_message evt evts other b id continue e h =
      rw (e, h b evt.message_id) refl
  turn_finishes event_error evt evts other b id continue e h = rw (e, append-nil b) refl
  turn_finishes event_done evt evts other b id continue e h = rw (e, append-nil b) refl
  turn_finishes event_ignore evt evts other b id continue e h = rw (e, h b id) refl
  turn_finishes event_challenge evt evts other b id continue e h = rw (e, h b id) refl

  turn_skips :
      (t : StreamEventType) (evt : StreamEvent) (b id : Text)
      (continue : Text → Text → Option Completed)
      → passes t ≡ false
      → continue b id ≡ complete_turn (complete_event t evt) continue b id
  unfolding complete_turn complete_event
  turn_skips event_ignore evt b id continue h = refl
  turn_skips event_challenge evt b id continue h = refl
  turn_skips _ evt b id continue h = cc

  -- Complete takes no notice of the events that the reader keeps back.
  complete_passed :
      (last : StreamEvent) (evts : List StreamEvent) (b id : Text)
      → complete_event last.event_type last ≡ finish last.error
      → complete_loop (map received (passed_on evts ++ last ∷ [])) b id
        ≡ some (finished evts last.error b id)
  unfolding complete_loop
  complete_passed last [] b id h = rw (h, complete_turn, append-nil b) refl
  complete_passed last (evt ∷ evts) b id h =
      let continue : Text → Text → Option Completed =
        complete_loop (map received (passed_on evts ++ last ∷ [])) in
      let turn =
        turn_finishes evt.event_type evt evts last.error b id continue refl
          (λ b id. complete_passed last evts b id h) in
      elim (Bool-cases (passes evt.event_type)) [
        | inl kept ↦ rw kept turn
        | inr skipped ↦ rw skipped (turn_skips evt.event_type evt b id continue skipped ∙ turn)
      ]

  last_event-finish :
      (is_normal_closure : Err → Bool) (r : Reads)
      → let last = last_event is_normal_closure r in
        complete_event last.event_type last ≡ finish last.error
  unfolding last_event complete_event
  last_event-finish is_normal_closure r = elim (Option-cases r.ended) [
    | inr (e, ended) ↦ rw (ended, last_event) refl
    | inl alive ↦ elim (Bool-cases (is_normal_closure r.failure)) [
      | inl normal ↦ rw (alive, last_event, normal) refl
      | inr other ↦ rw (alive, last_event, other) refl
    ]
  ]

  -- As long as every challenge is solved within the fuel, readLoop sends one answer for each challenge
  -- and passes on the other events in their order, and then one event for the failed read; and on what
  -- it passes on, Complete returns: the text that the events up to the first "done" or "error" carry,
  -- the last message ID among them, and the error of that event or, without one, of the failed read.
  pub connection_completes :
      (is_normal_closure : Err → Bool) (r : Reads) (answers : List Text)
      → Solved (challenges (parsed r.frames)) answers
      → let evts = parsed r.frames in
        let events = passed_on evts ++ last_event is_normal_closure r ∷ [] in
        (read_loop sha256 fuel is_normal_closure r ≡ some (events, answer_messages answers))
        × (complete_loop (map received events) [] []
            ≡ some (record {
              text = text_until_end evts;
              message_id = message_id_at_end evts [];
              error = error_at_end evts (last_event is_normal_closure r).error;
              invalidated = false;
            }))
  unfolding read_loop
  connection_completes is_normal_closure r answers h = (
    read_frames_lem _ r.frames answers h,
    complete_passed _ (parsed r.frames) [] [] (last_event-finish is_normal_closure r),
  )
