-- ===== src/Examples/Serving.antt =====
-- The theorems on requests, streams, starts and challenges, on small inputs. The tables of characters
-- are those of ASCII.
use copilot_openai_proxy.Base.{
  ℕ, zero, suc, ◌-◌, ◌<◌, ◌≡◌, refl, false, none, some, List, [], ◌∷◌, map, arith, if◌then◌else◌,
}
use mathlib.Core.Option
use copilot_openai_proxy.Base.Int.{pos}
use copilot_openai_proxy.Base.Text.{Text, codes, contains, has_prefix}
use copilot_openai_proxy.Base.Unicode.{ascii_tables}
use copilot_openai_proxy.Base.Decimal.{decimal, atoi}
use copilot_openai_proxy.Errors.{
  Err, Result, ok, err, retryable_error, upstream_error, deadline_exceeded, new_capacity_error,
}
use copilot_openai_proxy.Session.{SessionState}
use copilot_openai_proxy.Protocol.{
  StreamEvent, StreamEventType, event_start_message, event_append_text, event_done, error_of_body,
}
use copilot_openai_proxy.Completion.{
  Selected, received, complete_loop, Stamp, json, role_chunk, stream_body,
}
use copilot_openai_proxy.Completion.Laws.{completed_text, then_streamed, stream_text-complete_loop}
use copilot_openai_proxy.Completion.Shape.{contents, texts_of, stream_body-contents}
use copilot_openai_proxy.StartRetry.{Attempts, start_anon}
use copilot_openai_proxy.StartRetry.Laws.{Retried, Ended, start_anon-Ended}
use copilot_openai_proxy.Hashcash.{
  has_leading_zero_bits, split_colon, difficulty_of, solves, solve_hashcash, zero_bytes, zero_rest,
}
use copilot_openai_proxy.Hashcash.Bits.{take, bits, zeros, has_leading_zero_bits-bits}
use copilot_openai_proxy.Hashcash.Solve.{Least, solve_hashcash-Least}
use copilot_openai_proxy.Handler.{classify_client_error, write_client_error}
use copilot_openai_proxy.Errors.Classify.{is_blocked}
use copilot_openai_proxy.Handler.Status.{
  wrap_all, seen, status_wrapped, capacity_deadline_status, blocked_body_status,
}
use copilot_openai_proxy.ModelId.{protocol_mode_and_product, normalize_model, mode_for_model}
use copilot_openai_proxy.ModelId.Laws.{IsModelName, is_legacy, mode_upstream}
use copilot_openai_proxy.Images.{Json, Items, Fields, Library}
use copilot_openai_proxy.Messages.{ChatMessage, build_completion_payload}
use copilot_openai_proxy.Messages.Laws.{GoodPayload, build_completion_payload-GoodPayload}
use copilot_openai_proxy.Examples.Sessions.{a_session}

abbrev pub stamp : Stamp
stamp = record { id = codes "chatcmpl-1"; created = 3; model = codes "smart" }

abbrev pub event : StreamEventType → Text → StreamEvent
event t text = record {
  event_type = t;
  text = text;
  message_id = codes "m1";
  conversation_id = codes "c1";
  image_url = [];
  error = Err.nil;
  challenge_param = [];
}

abbrev an_answer : List StreamEvent
an_answer =
    event event_start_message []
    ∷ event event_append_text (codes "Hi")
    ∷ event event_append_text (codes " there")
    ∷ event event_done []
    ∷ []

abbrev selected_answer : List Selected
selected_answer = map received an_answer

stream_text-complete_loop_example :
    completed_text (complete_loop ⦃u = ascii_tables⦄ selected_answer [] [])
    ≡ then_streamed [] (stream_body ⦃u = ascii_tables⦄ stamp selected_answer)
stream_text-complete_loop_example =
    stream_text-complete_loop ⦃u = ascii_tables⦄ stamp selected_answer

stream_body-contents_example :
    stream_body ⦃u = ascii_tables⦄ stamp selected_answer
    ≡ Option.map
        (λ ts. json (role_chunk stamp) ∷ contents stamp ts)
        (texts_of ⦃u = ascii_tables⦄ selected_answer)
stream_body-contents_example = stream_body-contents ⦃u = ascii_tables⦄ stamp selected_answer

-- The first start meets a 503, the second one succeeds.
abbrev second_try : ℕ → Result SessionState
second_try zero = err (retryable_error [] (upstream_error (codes "start status 503")))
second_try (suc k) = ok a_session

abbrev two_attempts : Attempts
two_attempts = record { once = second_try; context_ended = λ k. false; wait_ended = λ k. none }

start_anon-Ended_example :
    (k : ℕ) × (k < 3)
    × Retried ⦃u = ascii_tables⦄ two_attempts k
    × ((start_anon ⦃u = ascii_tables⦄ two_attempts).0 ≡ suc k)
    × Ended ⦃u = ascii_tables⦄ two_attempts k (start_anon ⦃u = ascii_tables⦄ two_attempts).1
start_anon-Ended_example = start_anon-Ended ⦃u = ascii_tables⦄ two_attempts

abbrev a_hash : List ℕ
a_hash = 0 ∷ 31 ∷ 200 ∷ []

has_leading_zero_bits-bits_example :
    has_leading_zero_bits a_hash (pos 11) ≡ zeros (take 11 (bits a_hash))
has_leading_zero_bits-bits_example =
    has_leading_zero_bits-bits a_hash 11 (omega arith, (omega arith, (omega arith, tt)))

-- The "hash" of a text that ends in a 2 starts with a zero byte.
abbrev last_digit : Text → List ℕ
last_digit [] = 255 ∷ []
last_digit (c ∷ []) = (c - b'2') ∷ []
last_digit (c ∷ d ∷ s) = last_digit (d ∷ s)

solve_hashcash-Least_example :
    (k : ℕ) × (solve_hashcash last_digit 9 (codes "ab:8") ≡ some (decimal k))
    × Least last_digit (codes "ab") (difficulty_of (codes "8")) 0 2 k
unfolding split_colon solves difficulty_of atoi has_leading_zero_bits zero_bytes zero_rest decimal
solve_hashcash-Least_example =
    solve_hashcash-Least last_digit 9 2 (codes "ab:8") (codes "ab") (codes "8") refl refl
      (omega arith)

abbrev two_prefixes : List Text
two_prefixes = codes "copilot" ∷ codes "start" ∷ []

status_wrapped_example :
    seen ⦃u = ascii_tables⦄ (
      write_client_error (
        classify_client_error ⦃u = ascii_tables⦄
          (wrap_all two_prefixes (upstream_error (codes "blocked")))))
    ≡ seen ⦃u = ascii_tables⦄ (
        write_client_error
          (classify_client_error ⦃u = ascii_tables⦄ (upstream_error (codes "blocked"))))
status_wrapped_example =
    status_wrapped ⦃u = ascii_tables⦄ two_prefixes (upstream_error (codes "blocked")) refl

capacity_deadline_status_example :
    seen ⦃u = ascii_tables⦄ (
      write_client_error (
        classify_client_error ⦃u = ascii_tables⦄ (
          wrap_all two_prefixes
            (new_capacity_error (codes "full") (Err.sentinel deadline_exceeded)))))
    ≡ some (503, codes "server_error", some (codes "1"))
capacity_deadline_status_example =
    capacity_deadline_status ⦃u = ascii_tables⦄ two_prefixes (codes "full")

abbrev blocked_body : Text
blocked_body = codes "user blocked"

blocked_body_status_example :
    (is_blocked ⦃u = ascii_tables⦄ (wrap_all two_prefixes (error_of_body blocked_body)) ≡ false)
    × (seen ⦃u = ascii_tables⦄ (
          write_client_error (
            classify_client_error ⦃u = ascii_tables⦄
              (wrap_all two_prefixes (error_of_body blocked_body))))
        ≡ some (502, codes "server_error", none))
unfolding contains has_prefix
blocked_body_status_example = blocked_body_status ⦃u = ascii_tables⦄ two_prefixes blocked_body refl

abbrev a_model : Text
a_model = codes " GPT-5_x "

mode_upstream_example :
    let id = normalize_model ⦃u = ascii_tables⦄ a_model in
    IsModelName id
    × (mode_for_model ⦃u = ascii_tables⦄ id ≡ id)
    × (protocol_mode_and_product ⦃u = ascii_tables⦄ (mode_for_model ⦃u = ascii_tables⦄ id)
        ≡ ((if is_legacy id then codes "chat" else id), id))
mode_upstream_example = mode_upstream ⦃u = ascii_tables⦄ a_model

-- Base64 as it is documented, cut down to one text.
abbrev pub a_library : Library
a_library = record {
  print_value = λ v. codes "v";
  quote = λ t. t;
  decode_padded = λ t. ok (1 ∷ 2 ∷ []);
  decode_raw = λ t. ok (1 ∷ 2 ∷ []);
}

abbrev pub some_messages : List ChatMessage
some_messages =
    record { role = codes "user"; content = Json.str (codes "hello") }
    ∷ record {
      role = codes "user";
      content = Json.arr (
          Items.item
            (Json.obj (
              Fields.field (codes "type") (Json.str (codes "image_url")) (
                Fields.field (codes "image_url") (Json.str (codes "data:image/png;base64,AQI="))
                  Fields.no_fields)))
            Items.no_items);
    }
    ∷ []

build_completion_payload-GoodPayload_example :
    GoodPayload (build_completion_payload ⦃u = ascii_tables⦄ a_library some_messages)
build_completion_payload-GoodPayload_example =
    build_completion_payload-GoodPayload ⦃u = ascii_tables⦄ a_library some_messages
