-- ===== src/Outbound/Laws.antt =====
-- What newSendMessage of internal/copilot/outbound.go makes of the images that were uploaded.
use copilot_openai_proxy.Base.{
  ◌≤◌, ◌≡◌, refl, ap, Option, List, [], ◌∷◌, ◌++◌, map, length, All, arith, false,
}
use mathlib.Core.Path.{subst}
use copilot_openai_proxy.Base.Text.{Text}
use copilot_openai_proxy.Base.Unicode.{Unicode}
use copilot_openai_proxy.Errors.{Result, ok, is_empty}
use copilot_openai_proxy.Cookies.{Cookie}
use copilot_openai_proxy.Images.{Library, ImageInput, parse_image_url_part}
use copilot_openai_proxy.Messages.Order.{wanted_images, payload_images}
use copilot_openai_proxy.Messages.{ChatMessage, CompletionPayload, build_completion_payload}
use copilot_openai_proxy.Messages.Laws.{GoodPayload, build_completion_payload-GoodPayload}
use copilot_openai_proxy.Attachments.{Uploads, upload_images}
use copilot_openai_proxy.Attachments.Laws.{
  ServesAll, upload_images-Serves, ServesAll-named, ServesAll-length,
}
use copilot_openai_proxy.Outbound.{image_item, text_item, send_content, new_send_message}

length-map : {A B : Type 0} (f : A → B) (xs : List A) → length (map f xs) ≡ length xs
length-map f [] = refl
length-map f (x ∷ xs) = omega (arith, length-map f xs)

send_content-named :
    (text : Text) (urls : List Text)
    → All (λ url. is_empty url ≡ false) urls
    → send_content text urls ≡ map image_item urls ++ text_item text ∷ []
unfolding send_content
send_content-named text [] h = refl
send_content-named text (url ∷ urls) h = rw (h.0, send_content-named text urls h.1)

module _ ⦃u : Unicode⦄ (lib : Library) (p : Uploads) (cookies : List (Option Cookie)) where
  -- From messages to the message upstream: if a payload is built and the service takes each of its
  -- images and answers with a URL, then all are uploaded, none being refused before it is sent; they are
  -- the parts of type "image_url" of the messages, decoded one by one and in their order; and the
  -- message has one item for each of them, in the same order, and then the prompt.
  pub prompt_content :
      (messages : List ChatMessage) (payload : CompletionPayload) (conversation_id mode : Text)
      (urls : List Text)
      → build_completion_payload lib messages ≡ ok payload
      → p.new_request ≡ ok tt
      → ServesAll p cookies payload.images urls
      → (upload_images p cookies payload.images ≡ ok urls)
        × (map (parse_image_url_part lib) (wanted_images lib messages) ≡ map ok payload.images)
        × ((new_send_message payload.prompt conversation_id mode urls).content
            ≡ map image_item urls ++ text_item payload.prompt ∷ [])
        × (length urls ≡ length (wanted_images lib messages))
        × (length urls ≤ 4)
  unfolding new_send_message
  prompt_content messages payload conversation_id mode urls built created s =
      let good : GoodPayload (ok payload) =
        subst GoodPayload built (build_completion_payload-GoodPayload lib messages) in
      let decoded = payload_images lib messages payload built in
      let count = ServesAll-length p cookies payload.images urls s in
      (
        upload_images-Serves p cookies payload.images urls created good.0 s,
        decoded,
        send_content-named payload.prompt urls (ServesAll-named p cookies payload.images urls s),
        omega (
          arith,
          count,
          ap length decoded,
          length-map (parse_image_url_part lib) (wanted_images lib messages),
          length-map {B = Result ImageInput} ok payload.images,
        ),
        omega (arith, good.1, count),
      )
