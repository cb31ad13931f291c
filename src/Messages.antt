-- ===== src/Messages.antt =====
-- internal/openai/images.go: from OpenAI chat messages to a prompt and its images. Content that is
-- neither a string nor a list is printed by fmt, a parameter.
pub mod Laws
pub mod Order
use copilot_openai_proxy.Base.{
  ℕ, zero, suc, ◌+◌, ◌*◌, ◌^◌, Bool, true, false, not, ◌&&◌, ◌||◌, Option, none, some, List, [],
  ◌∷◌, ◌++◌, length, any, ltb, leb, ◌==◌, if◌then◌else◌,
}
use copilot_openai_proxy.Base.Text.{Text, codes, text_eq, has_prefix, join}
use copilot_openai_proxy.Base.Unicode.{Unicode, lower, trim_space, equal_fold}
use copilot_openai_proxy.Errors.{Err, plain, wrapped, Result, ok, err, is_empty}
use copilot_openai_proxy.Images.{
  Json, Items, no_items, item, Fields, ImageInput, Library, lookup_field, text_field,
  parse_image_url_part, str, arr, obj, other, no_fields, field,
}

pub record ChatMessage : Type 0 where
  pub role : Text
  pub content : Json

pub record CompletionPayload : Type 0 where
  pub prompt : Text
  pub images : List ImageInput

abbrev pub max_images_per_request : ℕ
max_images_per_request = 4

module _ ⦃u : Unicode⦄ (lib : Library) where
  -- what a part of a multimodal message adds
  append_text : Text → Text → Text
  append_text b text = if is_empty b then text else b ++ (10 ∷ text)

  -- The loop of extractMessageContent over the parts, from what it has collected. A text may be empty,
  -- and one that is missing or no string adds nothing, not even a line break.
  unfoldable pub part_text : Option Json → Text → Text
  unfolding append_text
  part_text (some (str s)) b = append_text b s
  part_text _ b = b

  unfoldable pub part_kind : Json → Option Fields
  part_kind (obj fs) = some fs
  part_kind _ = none

  unfoldable pub type_is : Text → Fields → Bool
  type_is name fs = elim (lookup_field (codes "type") fs) [
    | some (str s) ↦ text_eq s name
    | _ ↦ false
  ]

  unfoldable pub collect_image :
      Result ImageInput
      → (List ImageInput → Result (Text × List ImageInput))
      → List ImageInput
      → Result (Text × List ImageInput)
  collect_image (ok image) continue images = continue (images ++ image ∷ [])
  collect_image (err e) continue images = err e

  unfoldable pub collect_part :
      Option Fields
      → (Text → List ImageInput → Result (Text × List ImageInput))
      → Text
      → List ImageInput
      → Result (Text × List ImageInput)
  unfolding type_is part_text collect_image parse_image_url_part
  collect_part none continue b images = continue b images
  collect_part (some fs) continue b images =
      if type_is (codes "text") fs
      then continue (part_text (lookup_field (codes "text") fs) b) images
      else if type_is (codes "image_url") fs
      then collect_image (parse_image_url_part lib (lookup_field (codes "image_url") fs))
          (continue b) images
      else continue b images

  unfoldable pub collect_parts : Items → Text → List ImageInput → Result (Text × List ImageInput)
  unfolding collect_part part_kind
  collect_parts no_items b images = ok (b, images)
  collect_parts (item part rest) b images =
      collect_part (part_kind part) (collect_parts rest) b images

  unfoldable pub extract_message_content : Json → Result (Text × List ImageInput)
  unfolding collect_parts
  extract_message_content (str s) = ok (s, [])
  extract_message_content (arr parts) = collect_parts parts [] []
  extract_message_content content = ok (lib.print_value content, [])

  -- The text of a message in the prompt, by its role.
  unfoldable pub render_message : Text → Text → Text
  render_message role text =
      if text_eq role (codes "system")
      then codes "[System] " ++ (text ++ (10 ∷ 10 ∷ []))
      else if text_eq role (codes "user")
      then text ++ (10 ∷ [])
      else if text_eq role (codes "assistant")
      then codes "[Assistant] " ++ (text ++ (10 ∷ []))
      else text ++ (10 ∷ [])

  unfoldable pub add_message :
      Text
      → Result (Text × List ImageInput)
      → (Text → List ImageInput → Result CompletionPayload)
      → Text
      → List ImageInput
      → Result CompletionPayload
  unfolding render_message
  add_message role (err e) continue b images = err e
  add_message role (ok (text, msg_images)) continue b images =
      if ltb max_images_per_request (length images + length msg_images)
      then err (plain (codes "at most 4 images are supported per request"))
      else continue (b ++ render_message role text) (images ++ msg_images)

  -- The loop of buildCompletionPayload, from the prompt and the images that it has collected.
  unfoldable pub build_loop : List ChatMessage → Text → List ImageInput → Result CompletionPayload
  unfolding add_message extract_message_content
  build_loop [] b images = ok (record { prompt = b; images = images })
  build_loop (msg ∷ rest) b images =
      add_message msg.role (extract_message_content msg.content) (build_loop rest) b images

  unfoldable pub build_completion_payload : List ChatMessage → Result CompletionPayload
  unfolding build_loop
  build_completion_payload messages = build_loop messages [] []
