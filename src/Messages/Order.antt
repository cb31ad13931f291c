-- ===== src/Messages/Order.antt =====
-- That buildCompletionPayload of internal/openai/images.go keeps the order of the images.
use copilot_openai_proxy.Base.{
  ◌+◌, ◌≡◌, refl, sym, ap, ◌∙◌, inl, inr, Bool, true, false, Option, none, some, List, [], ◌∷◌,
  ◌++◌, map, length, ltb, if_cases, if◌then◌else◌,
}
use mathlib.Core.List.{append-nil, append_assoc}
use mathlib.Core.Path.{subst}
use copilot_openai_proxy.Base.Text.{Text, codes}
use copilot_openai_proxy.Base.Unicode.{Unicode}
use copilot_openai_proxy.Errors.{Result, ok, err, Result-cases}
use copilot_openai_proxy.Images.{
  Json, Items, no_items, item, Fields, ImageInput, Library, lookup_field, parse_image_url_part,
}
use copilot_openai_proxy.Messages.{
  ChatMessage, CompletionPayload, max_images_per_request, collect_image, collect_part, part_kind,
  type_is, collect_parts, extract_message_content, render_message, add_message, build_loop,
  build_completion_payload,
}

map-append : {A B : Type 0} (f : A → B) (xs ys : List A) → map f (xs ++ ys) ≡ map f xs ++ map f ys
map-append f [] ys = refl
map-append f (x ∷ xs) ys = ap (λ (l : List _). f x ∷ l) (map-append f xs ys)

module _ ⦃u : Unicode⦄ (lib : Library) where
  abbrev image_of : Option Fields → List (Option Json) → List (Option Json)
  image_of none more = more
  image_of (some fs) more =
      if type_is lib (codes "text") fs
      then more
      else if type_is lib (codes "image_url") fs
      then lookup_field (codes "image_url") fs ∷ more
      else more

  -- The fields "image_url" of the parts with that type, from the first part to the last.
  image_parts : Items → List (Option Json)
  image_parts no_items = []
  image_parts (item part rest) = image_of (part_kind lib part) (image_parts rest)

  abbrev content_images : Json → List (Option Json)
  content_images (Json.arr parts) = image_parts parts
  content_images _ = []

  -- The same for messages, from the first to the last.
  pub wanted_images : List ChatMessage → List (Option Json)
  wanted_images [] = []
  wanted_images (msg ∷ rest) = content_images msg.content ++ wanted_images rest

  -- After the images that were there come those of these parts, decoded, one by one.
  abbrev Decoded : List ImageInput → List (Option Json) → List ImageInput → Type 0
  Decoded before wanted out =
      (new : List ImageInput) × (out ≡ before ++ new)
      × (map (parse_image_url_part lib) wanted ≡ map ok new)

  abbrev DecodedParts :
      List ImageInput → List (Option Json) → Result (Text × List ImageInput) → Type 0
  DecodedParts before wanted (ok (text, out)) = Decoded before wanted out
  DecodedParts before wanted (err e) = Unit {0}

  abbrev DecodedPayload : List ImageInput → List (Option Json) → Result CompletionPayload → Type 0
  DecodedPayload before wanted (ok p) = Decoded before wanted p.images
  DecodedPayload before wanted (err e) = Unit {0}

  one_more :
      (before : List ImageInput) (w : Option Json) (image : ImageInput)
      (wanted : List (Option Json)) (r : Result (Text × List ImageInput))
      → parse_image_url_part lib w ≡ ok image
      → DecodedParts (before ++ image ∷ []) wanted r
      → DecodedParts before (w ∷ wanted) r
  one_more before w image wanted (err e) at h = tt
  one_more before w image wanted (ok (text, out)) at (new, all, each) =
      (image ∷ new, all ∙ append_assoc before (image ∷ []) new, rw (at, each) refl)

  collect_image-Decoded :
      (w : Option Json) (wanted : List (Option Json))
      (continue : List ImageInput → Result (Text × List ImageInput)) (before : List ImageInput)
      → ((more : List ImageInput) → DecodedParts more wanted (continue more))
      → DecodedParts before
          (w ∷ wanted)
          (collect_image lib (parse_image_url_part lib w) continue before)
  unfolding collect_image
  collect_image-Decoded w wanted continue before rest =
      elim (Result-cases (parse_image_url_part lib w)) [
        | inr (e, at) ↦ rw (at, collect_image) tt
        | inl (image, at) ↦
            subst
              (λ (r : Result ImageInput).
                DecodedParts before (w ∷ wanted) (collect_image lib r continue before))
              (sym at) (one_more before w image wanted _ at (rest (before ++ image ∷ [])))
      ]

  by_type :
      (is_text is_image : Bool) (before : List ImageInput) (w : Option Json)
      (wanted : List (Option Json)) (text image other : Result (Text × List ImageInput))
      → DecodedParts before wanted text
      → DecodedParts before (w ∷ wanted) image
      → DecodedParts before wanted other
      → DecodedParts before
          (if is_text then wanted else if is_image then w ∷ wanted else wanted)
          (if is_text then text else if is_image then image else other)
  by_type true is_image before w wanted text image other t i o = t
  by_type false true before w wanted text image other t i o = i
  by_type false false before w wanted text image other t i o = o

  collect_part-Decoded :
      (kind : Option Fields) (wanted : List (Option Json))
      (continue : Text → List ImageInput → Result (Text × List ImageInput)) (b : Text)
      (before : List ImageInput)
      → ((c : Text) (more : List ImageInput) → DecodedParts more wanted (continue c more))
      → DecodedParts before (image_of kind wanted) (collect_part lib kind continue b before)
  unfolding collect_part
  collect_part-Decoded none wanted continue b before rest = rest b before
  collect_part-Decoded (some fs) wanted continue b before rest =
      by_type (type_is lib (codes "text") fs) (type_is lib (codes "image_url") fs) before
        (lookup_field (codes "image_url") fs) wanted _ _ _ (rest _ before)
        (collect_image-Decoded (lookup_field (codes "image_url") fs) wanted (continue b) before
          (rest b))
        (rest b before)

  collect_parts-Decoded :
      (parts : Items) (b : Text) (before : List ImageInput)
      → DecodedParts before (image_parts parts) (collect_parts lib parts b before)
  unfolding collect_parts image_parts
  collect_parts-Decoded no_items b before = ([], sym (append-nil before), refl)
  collect_parts-Decoded (item part rest) b before =
      collect_part-Decoded (part_kind lib part) (image_parts rest) (collect_parts lib rest) b before
        (collect_parts-Decoded rest)

  content-Decoded :
      (content : Json)
      → DecodedParts [] (content_images content) (extract_message_content lib content)
  unfolding extract_message_content
  content-Decoded (Json.str s) = ([], refl, refl)
  content-Decoded (Json.arr parts) = collect_parts-Decoded parts [] []
  content-Decoded (Json.obj fs) = ([], refl, refl)
  content-Decoded (Json.other s) = ([], refl, refl)

  one_message :
      (before more : List ImageInput) (own wanted : List (Option Json))
      (r : Result CompletionPayload)
      → Decoded [] own more
      → DecodedPayload (before ++ more) wanted r
      → DecodedPayload before (own ++ wanted) r
  one_message before more own wanted (err e) h rest = tt
  one_message before more own wanted (ok p) (new, all, each) (later, rest, each_later) = (
    more ++ later,
    rest ∙ append_assoc before more later,
    map-append (parse_image_url_part lib) own wanted
        ∙ rw (each, each_later, all) (sym (map-append ok new later)),
  )

  add_message-Decoded :
      (role : Text) (r : Result (Text × List ImageInput)) (own wanted : List (Option Json))
      (continue : Text → List ImageInput → Result CompletionPayload) (b : Text)
      (before : List ImageInput)
      → DecodedParts [] own r
      → ((c : Text) (more : List ImageInput) → DecodedPayload more wanted (continue c more))
      → DecodedPayload before (own ++ wanted) (add_message lib role r continue b before)
  unfolding add_message
  add_message-Decoded role (err e) own wanted continue b before h rest = tt
  add_message-Decoded role (ok (text, more)) own wanted continue b before h rest =
      if_cases (DecodedPayload before (own ++ wanted))
        (ltb max_images_per_request (length before + length more)) _ _ (λ _. tt)
        λ _. one_message before more own wanted _ h (rest (b ++ render_message lib role text) _)

  build_loop-Decoded :
      (messages : List ChatMessage) (b : Text) (before : List ImageInput)
      → DecodedPayload before (wanted_images messages) (build_loop lib messages b before)
  unfolding build_loop wanted_images
  build_loop-Decoded [] b before = ([], sym (append-nil before), refl)
  build_loop-Decoded (msg ∷ rest) b before =
      add_message-Decoded msg.role (extract_message_content lib msg.content)
        (content_images msg.content) (wanted_images rest) (build_loop lib rest) b before
        (content-Decoded msg.content) (build_loop-Decoded rest)

  -- The images of a payload are the parts of type "image_url" of the messages, decoded one by one, in
  -- the order of the messages and of their parts.
  pub payload_images :
      (messages : List ChatMessage) (payload : CompletionPayload)
      → build_completion_payload lib messages ≡ ok payload
      → map (parse_image_url_part lib) (wanted_images messages) ≡ map ok payload.images
  unfolding build_completion_payload
  payload_images messages payload built =
      let (new, all, each) =
        subst (DecodedPayload [] (wanted_images messages)) built
          (build_loop-Decoded messages [] []) in
      each ∙ ap (map ok) (sym all)
