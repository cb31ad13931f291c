-- ===== src/Protocol.antt =====
-- internal/copilot/protocol.go: the events of the upstream WebSocket. A frame is modelled after
-- encoding/json has read it into a serverEnvelope.
use copilot_openai_proxy.Base.{List, [], ◌∷◌, ◌++◌, if◌then◌else◌}
use copilot_openai_proxy.Base.Text.{Text, codes, text_eq, contains}
use copilot_openai_proxy.Base.Unicode.{Unicode, trim_space}
use copilot_openai_proxy.Errors.{Err, plain, upstream_error, is_empty}

pub data StreamEventType : Type 0 where
  event_ignore event_append_text event_start_message event_error event_done event_challenge :
      StreamEventType
  event_image_generated : StreamEventType

pub record StreamEvent : Type 0 where
  pub event_type : StreamEventType
  pub text : Text
  pub message_id : Text
  pub conversation_id : Text
  pub image_url : Text
  pub error : Err
  pub challenge_param : Text

-- The fields of serverEnvelope that the program reads.
pub record ServerEnvelope : Type 0 where
  pub event : Text
  pub conversation_id : Text
  pub message_id : Text
  pub text : Text
  pub body : Text
  pub error_code : Text
  pub parameter : Text
  pub url : Text

-- firstNonEmpty of helpers.go
unfoldable pub first_non_empty : List Text → Text
first_non_empty [] = []
first_non_empty (s ∷ ss) = let rest = first_non_empty ss in if is_empty s then rest else s

abbrev pub bare : StreamEventType → StreamEvent
bare t = record {
  event_type = t;
  text = [];
  message_id = [];
  conversation_id = [];
  image_url = [];
  error = Err.nil;
  challenge_param = [];
}

-- The literals of the source that name events and messages.
abbrev pub blocked_report : Text
blocked_report =
    codes "copilot start reports session user is blocked; websocket may not produce completions"

-- The error of an "error" event with the given body.
unfoldable pub error_of_body : Text → Err
error_of_body body =
    if contains body (codes "blocked")
    then plain blocked_report
    else upstream_error (codes "upstream_error: " ++ body)

module _ ⦃u : Unicode⦄ where
  -- ImageMarkdown
  unfoldable pub image_markdown : Text → Text
  image_markdown url =
      if is_empty (trim_space url)
      then []
      else 10 ∷ (codes "![image](" ++ (url ++ (codes ")" ++ 10 ∷ [])))

  image_event : Text → Text → StreamEvent
  image_event message_id url =
      if is_empty url
      then bare event_ignore
      else record (bare event_image_generated) { message_id = message_id; image_url = url }

  -- parseServerEvent on a frame that is valid JSON; any other event is ignored
  unfoldable pub parse_server_event : ServerEnvelope → StreamEvent
  unfolding image_event error_of_body first_non_empty
  parse_server_event env =
      if text_eq env.event (codes "appendText")
      then record (bare event_append_text) { text = env.text }
      else if text_eq env.event (codes "startMessage")
      then record (bare event_start_message) {
        message_id = env.message_id;
        conversation_id = env.conversation_id;
      }
      else if text_eq env.event (codes "imageGenerated")
      then image_event env.message_id (trim_space env.url)
      else if text_eq env.event (codes "challenge")
      then record (bare event_challenge) { challenge_param = env.parameter }
      else if text_eq env.event (codes "error")
      then record (bare event_error) {
        error = error_of_body (first_non_empty (env.body ∷ env.text ∷ env.error_code ∷ []));
      }
      else if text_eq env.event (codes "done")
      then record (bare event_done) { message_id = env.message_id }
      else bare event_ignore
