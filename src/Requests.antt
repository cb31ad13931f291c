-- ===== src/Requests.antt =====
-- The handlers ChatCompletions, ListModels, fullResponse and streamResponse of
-- internal/openai/handler.go, and WriteModels of internal/openai/models.go. What net/http and encoding/json give is an
-- argument.
pub mod Laws
use copilot_openai_proxy.Base.{
  ℕ, Bool, true, false, not, ◌||◌, Option, none, some, List, [], ◌∷◌, ◌++◌, if◌then◌else◌,
}
use mathlib.Core.Option
use copilot_openai_proxy.Base.Text.{Text, codes, text_eq}
use copilot_openai_proxy.Base.Unicode.{Unicode}
use copilot_openai_proxy.Errors.{Err, Result, ok, err, is_empty, error_text}
use copilot_openai_proxy.Completion.{Stamp, Selected, SseItem, stream_body}
use copilot_openai_proxy.Handler.{ErrorReply, classify_client_error, write_client_error}
use copilot_openai_proxy.Completion.{CompletionInput}
use copilot_openai_proxy.Images.{Json, ImageInput, Library}
use copilot_openai_proxy.Messages.{ChatMessage, CompletionPayload, build_completion_payload}
use copilot_openai_proxy.ModelId.{normalize_model, mode_for_model}

pub record ChatCompletionRequest : Type 0 where
  pub model : Text
  pub messages : List ChatMessage
  pub stream : Bool
  pub tools : Option Json
  pub tool_choice : Option Json
  pub function_call : Option Json

-- What becomes of a request: WriteError, or one of the two ways to answer it.
pub data Dispatched : Type 0 where
  write_error : ℕ → Text → Text → Dispatched
  stream_response : CompletionInput → Dispatched
  full_response : CompletionInput → Dispatched

abbrev pub invalid_request : ℕ → Text → Dispatched
invalid_request status message = write_error status (codes "invalid_request_error") message

abbrev pub is_set : Option Json → Bool
is_set none = false
is_set (some v) = true

module _ ⦃u : Unicode⦄ (lib : Library) where
  abbrev pub completion_input : ChatCompletionRequest → CompletionPayload → CompletionInput
  completion_input req payload = record {
    prompt = payload.prompt;
    conversation_id = [];
    mode = mode_for_model (normalize_model req.model);
    stream = req.stream;
    stream_model = normalize_model req.model;
    images = payload.images;
  }

  -- From the payload on: the input, and the choice between a stream and a whole answer.
  unfoldable pub dispatch : ChatCompletionRequest → Result CompletionPayload → Dispatched
  dispatch req (err e) = invalid_request 400 (error_text e)
  dispatch req (ok payload) =
      let input = completion_input req payload in
      if req.stream then stream_response input else full_response input

  unfoldable pub decoded_request : Result ChatCompletionRequest → Dispatched
  unfolding dispatch
  decoded_request (err e) = invalid_request 400 (codes "invalid JSON: " ++ error_text e)
  decoded_request (ok req) =
      if is_set req.tools || (is_set req.tool_choice || is_set req.function_call)
      then invalid_request 400 (codes "tools/function calling is not supported")
      else dispatch req (build_completion_payload lib req.messages)

  -- ChatCompletions, with the body as far as it can be read, and json.Unmarshal
  unfoldable pub chat_completions :
      {Body : Type 0} → (Body → Result ChatCompletionRequest) → Text → Result Body → Dispatched
  unfolding decoded_request
  chat_completions unmarshal method (err e) =
      if not (text_eq method (codes "POST"))
      then invalid_request 405 (codes "only POST is supported")
      else invalid_request 400 (codes "failed to read request body")
  chat_completions unmarshal method (ok body) =
      if not (text_eq method (codes "POST"))
      then invalid_request 405 (codes "only POST is supported")
      else decoded_request (unmarshal body)

-- ModelInfo; its other fields are constants.
pub record ModelInfo : Type 0 where
  pub id : Text

unfoldable pub model_infos : List Text → List ModelInfo
model_infos [] = []
model_infos (id ∷ models) =
    let rest = model_infos models in if is_empty id then rest else record { id = id } ∷ rest

abbrev pub only_smart : List Text
only_smart = codes "smart" ∷ []

-- `if len(models) == 0 { models = []string{"smart"} }`
unfoldable pub models_or_smart : List Text → List Text
models_or_smart [] = only_smart
models_or_smart (id ∷ models) = id ∷ models

-- `if len(data) == 0 { data = []ModelInfo{{ID: "smart", …}} }`
unfoldable pub data_or_smart : List ModelInfo → List ModelInfo
data_or_smart [] = record { id = codes "smart" } ∷ []
data_or_smart (info ∷ data') = info ∷ data'

-- WriteModels: the data of the response
unfoldable pub write_models : List Text → List ModelInfo
unfolding model_infos models_or_smart data_or_smart
write_models models = data_or_smart (model_infos (models_or_smart models))

pub data Listed : Type 0 where
  list_error : ℕ → Text → Listed
  listed : List ModelInfo → Listed

-- ListModels, with the answer of client.ListModels
unfoldable pub list_models : Text → Result (List Text) → Listed
unfolding write_models
list_models method (err e) =
    if not (text_eq method (codes "GET"))
    then list_error 405 (codes "only GET is supported")
    else listed (write_models only_smart)
list_models method (ok modes) =
    if not (text_eq method (codes "GET"))
    then list_error 405 (codes "only GET is supported")
    else listed (write_models (models_or_smart modes))

-- The answer of fullResponse: the completion with its content, or a client error, which may be none.
pub data FullReply : Type 0 where
  completion : Stamp → Text → FullReply
  client_error : Option ErrorReply → FullReply

-- fullResponse, with the text that Complete returns
unfoldable pub full_response_of : ⦃u : Unicode⦄ → Stamp → Result Text → FullReply
full_response_of stamp (ok text) = completion stamp text
full_response_of stamp (err e) = client_error (write_client_error (classify_client_error e))

-- The answer of streamResponse: a client error, which may be none, a server error, or the items of an
-- event stream.
pub data StreamReply : Type 0 where
  stream_error : Option ErrorReply → StreamReply
  server_error : ErrorReply → StreamReply
  event_stream : List SseItem → StreamReply

-- streamResponse, with whether the writer is a Flusher and what the loop selects of the events that
-- StreamEvents returns; nothing while the stream has not ended
unfoldable pub stream_response_of :
    ⦃u : Unicode⦄ → Bool → Stamp → Result (List Selected) → Option StreamReply
unfolding stream_body
stream_response_of is_flusher stamp (err e) =
    some (stream_error (write_client_error (classify_client_error e)))
stream_response_of is_flusher stamp (ok events) =
    if not is_flusher
    then some (
        server_error (record {
          status = 500;
          error_type = codes "server_error";
          message = codes "streaming not supported";
          retry_after = none;
        }))
    else Option.map event_stream (stream_body stamp events)
