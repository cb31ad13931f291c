-- ===== src/Attachments/Laws.antt =====
-- The uploads of internal/copilot/attachments.go for the images that buildCompletionPayload of
-- internal/openai/images.go lets through.
use copilot_openai_proxy.Base.{
  ℕ, ◌+◌, ◌≤◌, ◌≡◌, refl, inl, inr, false, Option, List, [], ◌∷◌, length, All, arith, ◌==◌,
}
use copilot_openai_proxy.Base.Text.{Text, codes, text_eq}
use copilot_openai_proxy.Base.Unicode.{Unicode}
use copilot_openai_proxy.Base.Plain.{lower_plain, trim_space_plain}
use copilot_openai_proxy.Errors.{ok, is_empty}
use copilot_openai_proxy.Cookies.{Cookie}
use copilot_openai_proxy.Images.{ImageInput}
use copilot_openai_proxy.Images.Laws.{IsGood, Supported}
use copilot_openai_proxy.Attachments.{
  Uploads, normalize_image_mime, upload_headers, uploaded_url, upload_image, upload_from,
  upload_images,
}

-- The service takes an upload with these cookies and answers with the URL.
pub record Serves (p : Uploads) (cookies : List (Option Cookie)) (image : ImageInput) (url : Text)
    : Type 0 where
  pub response : Text
  pub exchanged :
      p.http_do (record {
        url = p.attachments_url;
        headers = upload_headers cookies image.mime image.bytes;
        content = image.bytes;
      })
      ≡ ok (record { status_code = 200; body = ok response })
  pub id : Text
  pub decoded : p.unmarshal response ≡ ok (record { id = id; url = url })
  pub named : is_empty url ≡ false

abbrev pub ServesAll : Uploads → List (Option Cookie) → List ImageInput → List Text → Type 0
ServesAll p cookies [] [] = Unit {0}
ServesAll p cookies (image ∷ images) (url ∷ urls) =
    Serves p cookies image url × ServesAll p cookies images urls
ServesAll p cookies _ _ = ⊥

module _ ⦃u : Unicode⦄ where
  png_normal : normalize_image_mime (codes "image/png") ≡ codes "image/png"
  unfolding normalize_image_mime text_eq
  png_normal = rw (trim_space_plain (codes "image/png") refl, lower_plain (codes "image/png") refl)

  jpeg_normal : normalize_image_mime (codes "image/jpeg") ≡ codes "image/jpeg"
  unfolding normalize_image_mime text_eq
  jpeg_normal =
      rw (trim_space_plain (codes "image/jpeg") refl, lower_plain (codes "image/jpeg") refl)

  Supported-normal : (mime : Text) → Supported mime → normalize_image_mime mime ≡ mime
  Supported-normal mime (inl png) = rw png png_normal
  Supported-normal mime (inr jpeg) = rw jpeg jpeg_normal

  Supported-filled : (mime : Text) → Supported mime → is_empty mime ≡ false
  Supported-filled mime (inl png) = rw png
  Supported-filled mime (inr jpeg) = rw jpeg

  filled_length : (bytes : List ℕ) → 1 ≤ length bytes → (length bytes == 0) ≡ false
  filled_length bytes h = ground arith

module _ ⦃u : Unicode⦄ (p : Uploads) (cookies : List (Option Cookie)) where
  upload_image-Serves :
      (image : ImageInput) (url : Text)
      → p.new_request ≡ ok tt
      → IsGood image
      → Serves p cookies image url
      → upload_image p cookies image.mime image.bytes ≡ ok url
  unfolding upload_image uploaded_url
  upload_image-Serves image url created good s = rw (
    filled_length image.bytes good.1,
    Supported-normal image.mime good.0,
    Supported-filled image.mime good.0,
    created,
    s.exchanged,
    s.decoded,
    s.named,
  )

  upload_from-Serves :
      (i : ℕ) (images : List ImageInput) (urls : List Text)
      → p.new_request ≡ ok tt
      → All IsGood images
      → ServesAll p cookies images urls
      → upload_from p cookies i images ≡ ok urls
  unfolding upload_from
  upload_from-Serves i [] [] created good s = refl
  upload_from-Serves i [] (url ∷ urls) created good s = absurd s
  upload_from-Serves i (image ∷ images) [] created good s = absurd s
  upload_from-Serves i (image ∷ images) (url ∷ urls) created good s = rw (
    upload_image-Serves image url created good.0 s.0,
    upload_from-Serves (i + 1) images urls created good.1 s.1,
  )

  pub upload_images-Serves :
      (images : List ImageInput) (urls : List Text)
      → p.new_request ≡ ok tt
      → All IsGood images
      → ServesAll p cookies images urls
      → upload_images p cookies images ≡ ok urls
  unfolding upload_images
  upload_images-Serves images urls created good s = upload_from-Serves 0 images urls created good s

pub ServesAll-named :
    (p : Uploads) (cookies : List (Option Cookie)) (images : List ImageInput) (urls : List Text)
    → ServesAll p cookies images urls
    → All (λ url. is_empty url ≡ false) urls
ServesAll-named p cookies [] [] s = tt
ServesAll-named p cookies [] (url ∷ urls) s = absurd s
ServesAll-named p cookies (image ∷ images) [] s = absurd s
ServesAll-named p cookies (image ∷ images) (url ∷ urls) s =
    (s.0.named, ServesAll-named p cookies images urls s.1)

pub ServesAll-length :
    (p : Uploads) (cookies : List (Option Cookie)) (images : List ImageInput) (urls : List Text)
    → ServesAll p cookies images urls
    → length urls ≡ length images
ServesAll-length p cookies [] [] s = refl
ServesAll-length p cookies [] (url ∷ urls) s = absurd s
ServesAll-length p cookies (image ∷ images) [] s = absurd s
ServesAll-length p cookies (image ∷ images) (url ∷ urls) s =
    omega (arith, ServesAll-length p cookies images urls s.1)
