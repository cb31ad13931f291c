-- ===== src/Messages/Laws.antt =====
-- What buildCompletionPayload of internal/openai/images.go lets through.
use copilot_openai_proxy.Base.{
  ◌+◌, ◌≤◌, Option, none, some, List, [], ◌∷◌, ◌++◌, length, length-append, All, All-append, arith,
  ltb, if_cases, ltb-false,
}
use copilot_openai_proxy.Base.Text.{Text, codes}
use copilot_openai_proxy.Base.Unicode.{Unicode}
use copilot_openai_proxy.Errors.{Result, ok, err}
use copilot_openai_proxy.Images.{Json, Items, no_items, item, Fields, ImageInput, Library}
use copilot_openai_proxy.Images.Laws.{IsGood, GoodImage, parse_image_url_part-GoodImage}
use copilot_openai_proxy.Messages.{
  ChatMessage, CompletionPayload, max_images_per_request, collect_image, collect_part, part_kind,
  type_is, collect_parts, extract_message_content, render_message, add_message, build_loop,
  build_completion_payload,
}

abbrev pub GoodParts : Result (Text × List ImageInput) → Type 0
GoodParts (ok (text, images)) = All IsGood images
GoodParts (err e) = Unit {0}

abbrev pub GoodPayload : Result CompletionPayload → Type 0
GoodPayload (ok p) = All IsGood p.images × (length p.images ≤ max_images_per_request)
GoodPayload (err e) = Unit {0}

module _ ⦃u : Unicode⦄ (lib : Library) where
  collect_image-GoodParts :
      (r : Result ImageInput) (continue : List ImageInput → Result (Text × List ImageInput))
      (images : List ImageInput)
      → GoodImage r
      → ((more : List ImageInput) → All IsGood more → GoodParts (continue more))
      → All IsGood images
      → GoodParts (collect_image lib r continue images)
  unfolding collect_image
  collect_image-GoodParts (ok image) continue images g rest h =
      rest (images ++ image ∷ []) (All-append IsGood images (image ∷ []) h (g, tt))
  collect_image-GoodParts (err e) continue images g rest h = tt

  part_GoodParts :
      (kind : Option Fields) (continue : Text → List ImageInput → Result (Text × List ImageInput))
      (b : Text) (images : List ImageInput)
      → ((c : Text) (more : List ImageInput) → All IsGood more → GoodParts (continue c more))
      → All IsGood images
      → GoodParts (collect_part lib kind continue b images)
  unfolding collect_part
  part_GoodParts none continue b images rest h = rest b images h
  part_GoodParts (some fs) continue b images rest h =
      if_cases GoodParts (type_is lib (codes "text") fs) _ _ (λ _. rest _ images h)
        λ _.
          if_cases GoodParts (type_is lib (codes "image_url") fs) _ _
            (λ _.
              collect_image-GoodParts _ (continue b) images (parse_image_url_part-GoodImage lib _)
                (rest b) h)
            λ _. rest b images h

  collect_parts-GoodParts :
      (parts : Items) (b : Text) (images : List ImageInput)
      → All IsGood images
      → GoodParts (collect_parts lib parts b images)
  unfolding collect_parts
  collect_parts-GoodParts no_items b images h = h
  collect_parts-GoodParts (item part rest) b images h =
      part_GoodParts (part_kind lib part) (collect_parts lib rest) b images
        (λ c more. collect_parts-GoodParts rest c more) h

  extract_message_content-GoodParts :
      (content : Json) → GoodParts (extract_message_content lib content)
  unfolding extract_message_content
  extract_message_content-GoodParts (Json.str s) = tt
  extract_message_content-GoodParts (Json.arr parts) = collect_parts-GoodParts parts [] [] tt
  extract_message_content-GoodParts (Json.obj fs) = tt
  extract_message_content-GoodParts (Json.other s) = tt

  add_message-GoodPayload :
      (role : Text) (r : Result (Text × List ImageInput))
      (continue : Text → List ImageInput → Result CompletionPayload) (b : Text)
      (images : List ImageInput)
      → GoodParts r
      → ((c : Text) (more : List ImageInput)
          → All IsGood more
          → length more ≤ max_images_per_request
          → GoodPayload (continue c more))
      → All IsGood images
      → GoodPayload (add_message lib role r continue b images)
  unfolding add_message
  add_message-GoodPayload role (err e) continue b images g rest h = tt
  add_message-GoodPayload role (ok (text, more)) continue b images g rest h =
      if_cases GoodPayload (ltb max_images_per_request (length images + length more)) _ _ (λ _. tt)
        λ fits.
          rest (b ++ render_message lib role text) (images ++ more)
            (All-append IsGood images more h g)
            (omega (
              arith,
              length-append images more,
              ltb-false max_images_per_request (length images + length more) fits,
            ))

  build_loop-GoodPayload :
      (messages : List ChatMessage) (b : Text) (images : List ImageInput)
      → All IsGood images
      → length images ≤ max_images_per_request
      → GoodPayload (build_loop lib messages b images)
  unfolding build_loop
  build_loop-GoodPayload [] b images h n = (h, n)
  build_loop-GoodPayload (msg ∷ rest) b images h n =
      add_message-GoodPayload msg.role (extract_message_content lib msg.content)
        (build_loop lib rest) b images (extract_message_content-GoodParts msg.content)
        (λ c more. build_loop-GoodPayload rest c more) h

  -- A payload that is built, from whatever messages, has at most four images, and each of them is a PNG
  -- or a JPEG of at least one byte and at most 10 MiB.
  pub build_completion_payload-GoodPayload :
      (messages : List ChatMessage) → GoodPayload (build_completion_payload lib messages)
  unfolding build_completion_payload
  build_completion_payload-GoodPayload messages =
      build_loop-GoodPayload messages [] [] tt (omega arith)
