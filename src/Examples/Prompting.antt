-- ===== src/Examples/Prompting.antt =====
-- The theorems on prompts: what is sent for one, and what it leaves in the registry.
use copilot_openai_proxy.Base.{◌≡◌, refl, ◌≤◌, true, false, none, some, [], ◌∷◌, ◌++◌, map, length}
use copilot_openai_proxy.Base.Text.{codes, text_eq, has_prefix}
use copilot_openai_proxy.Base.Unicode.{ascii_tables, trim_space, lower, equal_fold}
use copilot_openai_proxy.Errors.{Err, plain, ok}
use copilot_openai_proxy.Images.{lookup_field, parse_image_url_part}
use copilot_openai_proxy.Messages.{
  CompletionPayload, build_completion_payload, part_text, part_kind, type_is, collect_image,
}
use copilot_openai_proxy.Attachments.{Uploads, upload_images}
use copilot_openai_proxy.Attachments.Laws.{ServesAll}
use copilot_openai_proxy.Outbound.{new_send_message, image_item, text_item}
use copilot_openai_proxy.Outbound.Laws.{prompt_content}
use copilot_openai_proxy.Completion.{CompletionInput, Completed, closed, complete_loop}
use copilot_openai_proxy.SessionManager.Table.{get, put, size}
use copilot_openai_proxy.SessionManager.Semaphore.{counting}
use copilot_openai_proxy.SessionManager.Create.{new_session_manager_with_warm_pool}
use copilot_openai_proxy.SessionManager.State.{Lease, new_warming_id, clamp_warm, at_least_one}
use copilot_openai_proxy.SessionManager.Acquire.{returned, acquire, find_idle}
use copilot_openai_proxy.SessionManager.Warm.{maybe_refill, needs_warm_idle}
use copilot_openai_proxy.Base.Decimal.{decimal}
use copilot_openai_proxy.Prompt.{
  Attempt, prompted, attempt_prompt, start_prompt_events, complete, stream_events,
}
use copilot_openai_proxy.Prompt.Attempts.{Usable, Settled, attempt_prompt-Settled}
use copilot_openai_proxy.Prompt.Laws.{complete_releases}
use copilot_openai_proxy.Messages.Order.{wanted_images}
use copilot_openai_proxy.Examples.Sessions.{
  conversation, a_session, quiet_world, new_manager, new_manager-WellFormed, one_lease,
  one_lease-WellFormed,
}
use copilot_openai_proxy.Examples.Serving.{a_library, some_messages}

-- A service that takes every image.
abbrev an_upload : Uploads
an_upload = record {
  attachments_url = codes "http://h/attachments";
  new_request = ok tt;
  http_do = λ request. ok (record { status_code = 200; body = ok (codes "{}") });
  unmarshal = λ body. ok (record { id = codes "i"; url = codes "/i" });
}

abbrev a_payload : CompletionPayload
a_payload = record {
  prompt = codes "hello" ++ (10 ∷ 10 ∷ []);
  images = record { mime = codes "image/png"; bytes = 1 ∷ 2 ∷ [] } ∷ [];
}

abbrev a_prompt : CompletionInput
a_prompt = record {
  prompt = codes "hello";
  conversation_id = [];
  mode = codes "smart";
  stream = false;
  stream_model = codes "smart";
  images = [];
}

-- The upstream takes the prompt.
abbrev taken : Attempt counting
taken = record {
  world = quiet_world;
  uploads = an_upload;
  send = λ message. Err.nil;
  others = λ m. m;
  context_ended = false;
}

-- The connection is gone when the prompt is sent.
abbrev broken : Attempt counting
broken = record taken { send = λ message. plain (codes "copilot websocket pump closed") }

abbrev the_lease : Lease
the_lease = record { conversation_id = conversation; session = some a_session; released = false }

the_lease-Usable : Usable the_lease a_session
the_lease-Usable = record { has_session = refl; named = refl; fresh = refl }

attempt_prompt-Settled_example :
    Settled ⦃u = ascii_tables⦄ a_prompt broken 0 the_lease a_session one_lease (
      attempt_prompt ⦃u = ascii_tables⦄ a_prompt broken 0
        (one_lease, returned (the_lease, a_session)))
attempt_prompt-Settled_example =
    attempt_prompt-Settled ⦃u = ascii_tables⦄ a_prompt broken 0 the_lease a_session 0 one_lease
      one_lease-WellFormed the_lease-Usable

abbrev nothing_said : Completed
nothing_said = record { text = []; message_id = []; error = Err.nil; invalidated = false }

sent_once :
    (start_prompt_events ⦃u = ascii_tables⦄ a_prompt taken taken new_manager).1
    ≡ prompted the_lease a_session
unfolding start_prompt_events acquire get find_idle new_session_manager_with_warm_pool maybe_refill
    needs_warm_idle clamp_warm at_least_one size put text_eq new_warming_id decimal upload_images
sent_once = refl

complete_releases_example :
    let (m', result) =
      complete ⦃u = ascii_tables⦄ a_prompt taken taken 9 (λ m. m) (closed ∷ []) new_manager in
    (result ≡ some nothing_said)
    × (get a_session.conversation_id m'.sessions ≡ none)
    × (get a_session.conversation_id
          (stream_events ⦃u = ascii_tables⦄ a_prompt taken taken 9
            (λ m. m)
            ((closed, true) ∷ [])
            new_manager).0.sessions
        ≡ none)
unfolding complete_loop
complete_releases_example =
    complete_releases ⦃u = ascii_tables⦄ a_prompt 0 taken taken 9 (λ m. m) (closed ∷ [])
      ((closed, true) ∷ []) new_manager the_lease a_session nothing_said (λ n v. v)
      new_manager-WellFormed sent_once refl

built : build_completion_payload ⦃u = ascii_tables⦄ a_library some_messages ≡ ok a_payload
unfolding build_completion_payload text_eq lookup_field part_text part_kind type_is collect_image
    trim_space has_prefix lower equal_fold
built = refl

all_served : ServesAll an_upload [] a_payload.images (codes "/i" ∷ [])
all_served = (
  record { response = codes "{}"; exchanged = refl; id = codes "i"; decoded = refl; named = refl },
  tt,
)

prompt_content_example :
    (upload_images ⦃u = ascii_tables⦄ an_upload [] a_payload.images ≡ ok (codes "/i" ∷ []))
    × (map
          (parse_image_url_part ⦃u = ascii_tables⦄ a_library)
          (wanted_images ⦃u = ascii_tables⦄ a_library some_messages)
        ≡ map ok a_payload.images)
    × ((new_send_message ⦃u = ascii_tables⦄ a_payload.prompt conversation
          (codes "smart")
          (codes "/i" ∷ [])).content
        ≡ map image_item (codes "/i" ∷ []) ++ text_item a_payload.prompt ∷ [])
    × (length (codes "/i" ∷ []) ≡ length (wanted_images ⦃u = ascii_tables⦄ a_library some_messages))
    × (length (codes "/i" ∷ []) ≤ 4)
prompt_content_example =
    prompt_content ⦃u = ascii_tables⦄ a_library an_upload [] some_messages a_payload conversation
      (codes "smart") (codes "/i" ∷ []) built refl all_served
