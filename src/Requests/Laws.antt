-- ===== src/Requests/Laws.antt =====
-- Which requests ChatCompletions of internal/openai/handler.go hands on, with what input, and that the
-- list of models is never empty.
use copilot_openai_proxy.Base.{
  ◌≤◌, ◌≡◌, refl, inl, inr, ◌⊎◌, Bool, true, false, not, ◌||◌, List, [], ◌∷◌, All, length, arith,
  if◌then◌else◌, if_cases,
}
use copilot_openai_proxy.Base.Text.{Text, codes, text_eq, text_eq_iff}
use copilot_openai_proxy.Base.Unicode.{Unicode}
use copilot_openai_proxy.Errors.{Result, ok, err, is_empty, ◌>>=◌, Result-cases}
use mathlib.Core.Path.{subst}
use copilot_openai_proxy.Images.{Library}
use copilot_openai_proxy.Messages.{
  CompletionPayload, build_completion_payload, max_images_per_request,
}
use copilot_openai_proxy.Images.Laws.{IsGood}
use copilot_openai_proxy.Messages.Laws.{GoodPayload, build_completion_payload-GoodPayload}
use copilot_openai_proxy.ModelId.{normalize_model}
use copilot_openai_proxy.ModelId.Laws.{
  IsModelName, normalize_model-IsModelName, normalize_model_idempotent,
}
use copilot_openai_proxy.Requests.{
  ChatCompletionRequest, Dispatched, write_error, stream_response, full_response, is_set,
  completion_input, dispatch, decoded_request, chat_completions, ModelInfo, model_infos, only_smart,
  models_or_smart, data_or_smart, write_models, Listed, list_error, listed, list_models,
}
use copilot_openai_proxy.Completion.{CompletionInput}

-- An input that may be sent upstream for a request: one name as mode and model, which is the request's
-- normalised and well-formed; a new conversation; the prompt and the images of its messages, few and
-- good; and answered as it asks.
pub record IsSendable ⦃u : Unicode⦄ (lib : Library) (input : CompletionInput)
    (req : ChatCompletionRequest) : Type 0 where
  pub one_name : input.mode ≡ input.stream_model
  pub named : input.stream_model ≡ normalize_model req.model
  pub model_name : IsModelName input.stream_model
  pub new_conversation : input.conversation_id ≡ []
  pub content :
      build_completion_payload lib req.messages
      ≡ ok (record { prompt = input.prompt; images = input.images })
  pub good_images : All IsGood input.images
  pub few_images : length input.images ≤ max_images_per_request
  pub streamed : input.stream ≡ req.stream

-- A request that uses no tools.
abbrev pub needs_tools : ChatCompletionRequest → Bool
needs_tools req = is_set req.tools || (is_set req.tool_choice || is_set req.function_call)

-- What was decoded is a request that asks for this way to answer, and the input is for it.
pub record IsServed ⦃u : Unicode⦄ (lib : Library) (input : CompletionInput) (method : Text)
    (decoded : Result ChatCompletionRequest) (stream : Bool) : Type 0 where
  pub req : ChatCompletionRequest
  pub is_decoded : decoded ≡ ok req
  pub asked : req.stream ≡ stream
  pub no_tools : needs_tools req ≡ false
  pub sendable : IsSendable lib input req
  pub posted : method ≡ codes "POST"

-- An error is of the client's making; what is handed on came by POST, and is answered as it asks.
abbrev pub Sendable :
    ⦃u : Unicode⦄ → Library → Text → Result ChatCompletionRequest → Dispatched → Type 0
Sendable lib method decoded (write_error status err_type message) =
    ((status ≡ 400) ⊎ (status ≡ 405)) × (err_type ≡ codes "invalid_request_error")
Sendable lib method decoded (stream_response input) = IsServed lib input method decoded true
Sendable lib method decoded (full_response input) = IsServed lib input method decoded false

module _ ⦃u : Unicode⦄ (lib : Library) where
  input-IsSendable :
      (req : ChatCompletionRequest) (payload : CompletionPayload)
      → build_completion_payload lib req.messages ≡ ok payload
      → IsSendable lib (completion_input lib req payload) req
  input-IsSendable req payload built =
      let good : GoodPayload (ok payload) =
        subst GoodPayload built (build_completion_payload-GoodPayload lib req.messages) in
      record {
        one_name = normalize_model_idempotent req.model;
        named = refl;
        model_name = normalize_model-IsModelName req.model;
        new_conversation = refl;
        content = built;
        good_images = good.0;
        few_images = good.1;
        streamed = refl;
      }

  input-IsServed :
      (method : Text) (req : ChatCompletionRequest) (payload : CompletionPayload) (stream : Bool)
      → method ≡ codes "POST"
      → needs_tools req ≡ false
      → build_completion_payload lib req.messages ≡ ok payload
      → req.stream ≡ stream
      → IsServed lib (completion_input lib req payload) method (ok req) stream
  input-IsServed method req payload stream post plain built same = record {
    req = req;
    is_decoded = refl;
    asked = same;
    no_tools = plain;
    sendable = input-IsSendable req payload built;
    posted = post;
  }

  dispatch-Sendable :
      (method : Text) (req : ChatCompletionRequest)
      → method ≡ codes "POST"
      → needs_tools req ≡ false
      → Sendable lib method (ok req) (dispatch lib req (build_completion_payload lib req.messages))
  unfolding dispatch
  dispatch-Sendable method req post plain =
      elim (Result-cases (build_completion_payload lib req.messages)) [
        | inr (e, failed) ↦ rw (failed, dispatch) (inl refl, refl)
        | inl (payload, built) ↦
            rw (built, dispatch)
              (if_cases (Sendable lib method (ok req)) req.stream _ _
                (input-IsServed method req payload true post plain built)
                (input-IsServed method req payload false post plain built))
      ]

  decoded_request-Sendable :
      (method : Text) (r : Result ChatCompletionRequest)
      → method ≡ codes "POST"
      → Sendable lib method r (decoded_request lib r)
  unfolding decoded_request
  decoded_request-Sendable method (err e) post = (inl refl, refl)
  decoded_request-Sendable method (ok req) post =
      if_cases (Sendable lib method (ok req)) (needs_tools req) _ _ (λ _. (inl refl, refl))
        λ plain. dispatch-Sendable method req post plain

  -- Whatever the method, the body and its decoding, ChatCompletions answers with an error of type
  -- invalid_request_error and status 400 or 405, or hands on a POST whose body was read and decoded to a
  -- request without tools: to streamResponse if that asks for a stream, and to fullResponse if not. The
  -- input has the prompt and the images of the request's messages, at most four of the supported kinds
  -- and sizes; one well-formed name as mode and model, which is the request's, normalised; no
  -- conversation; and the request's own choice of a stream.
  pub chat_completions-Sendable :
      {Body : Type 0} (unmarshal : Body → Result ChatCompletionRequest) (method : Text)
      (body : Result Body)
      → Sendable lib method (body >>= unmarshal) (chat_completions lib unmarshal method body)
  unfolding chat_completions
  chat_completions-Sendable unmarshal method (err e) =
      if_cases (Sendable lib method (err e)) (not (text_eq method (codes "POST"))) _ _
        (λ _. (inr refl, refl)) (λ _. (inl refl, refl))
  chat_completions-Sendable unmarshal method (ok body) =
      if_cases (Sendable lib method (unmarshal body)) (not (text_eq method (codes "POST"))) _ _
        (λ _. (inr refl, refl))
        λ post.
          decoded_request-Sendable method (unmarshal body)
            ((text_eq_iff method (codes "POST")).0 (ground (arith, post)))

-- At least one model, and each has a name.
abbrev pub HasModels : List ModelInfo → Type 0
HasModels infos = (1 ≤ length infos) × All (λ info. is_empty info.id ≡ false) infos

abbrev pub GoodList : Text → Listed → Type 0
GoodList method (list_error status message) =
    (status ≡ 405) × (text_eq method (codes "GET") ≡ false)
GoodList method (listed infos) = (method ≡ codes "GET") × HasModels infos

model_infos-named :
    (models : List Text) → All (λ info. is_empty info.id ≡ false) (model_infos models)
unfolding model_infos
model_infos-named [] = tt
model_infos-named (id ∷ models) =
    if_cases (All (λ (info : ModelInfo). is_empty info.id ≡ false)) (is_empty id) _ _
      (λ _. model_infos-named models) λ named. (named, model_infos-named models)

data_or_smart-HasModels :
    (infos : List ModelInfo)
    → All (λ info. is_empty info.id ≡ false) infos
    → HasModels (data_or_smart infos)
unfolding data_or_smart
data_or_smart-HasModels [] h = (omega arith, (refl, tt))
data_or_smart-HasModels (info ∷ infos) h = (omega arith, h)

write_models-HasModels : (models : List Text) → HasModels (write_models models)
unfolding write_models
write_models-HasModels models =
    data_or_smart-HasModels (model_infos (models_or_smart models))
      (model_infos-named (models_or_smart models))

listed_or_error :
    (method : Text) (models : List Text)
    → GoodList method (
        if not (text_eq method (codes "GET"))
        then list_error 405 (codes "only GET is supported")
        else listed (write_models models))
listed_or_error method models =
    if_cases (GoodList method) (not (text_eq method (codes "GET"))) _ _
      (λ other. (refl, ground (arith, other)))
      λ get.
        ((text_eq_iff method (codes "GET")).0 (ground (arith, get)), write_models-HasModels models)

-- Whatever the upstream catalog gives, an error or a list with empty names, a GET is answered with at
-- least one model and only models with a name; any other method is answered with 405.
pub list_models-GoodList :
    (method : Text) (modes : Result (List Text)) → GoodList method (list_models method modes)
unfolding list_models
list_models-GoodList method (err e) = listed_or_error method only_smart
list_models-GoodList method (ok modes) = listed_or_error method (models_or_smart modes)
