-- ===== src/Attachments.antt =====
-- internal/copilot/attachments.go: the upload of images before a prompt is sent.
pub mod Laws
use copilot_openai_proxy.Base.{
  ℕ, zero, suc, ◌+◌, not, ◌||◌, Option, none, some, List, [], ◌∷◌, ◌++◌, length, ltb, ◌==◌,
  if◌then◌else◌,
}
use copilot_openai_proxy.Base.Text.{Text, codes, text_eq}
use copilot_openai_proxy.Base.Unicode.{Unicode, lower, trim_space}
use copilot_openai_proxy.Base.Decimal.{decimal}
use copilot_openai_proxy.Errors.{
  Err, plain, wrapped, upstream_error, Result, ok, err, is_empty, ◌>>=◌, ◌>>◌, map_err, refuse_if,
}
use copilot_openai_proxy.Cookies.{Cookie, collect_cookies}
use copilot_openai_proxy.Http.{
  Headers, set_header, set_common_headers, Request, Response, copilot_origin,
}
use copilot_openai_proxy.Images.{ImageInput}
use copilot_openai_proxy.ClientConfig.{first_codes}

-- attachmentUploadResponse
pub record AttachmentUploadResponse : Type 0 where
  pub id : Text
  pub url : Text

-- What the upload uses of packages net/http and encoding/json.
pub record Uploads : Type 0 where
  pub attachments_url : Text
  -- http.NewRequestWithContext: its error, if there is one
  pub new_request : Result (Unit {0})
  pub http_do : Request → Result Response
  pub unmarshal : Text → Result AttachmentUploadResponse

-- truncateForError
unfoldable pub truncate_for_error : Text → Text
unfolding first_codes
truncate_for_error s = if ltb 256 (length s) then first_codes 256 s ++ codes "..." else s

module _ ⦃u : Unicode⦄ where
  -- normalizeImageMIME: empty for a type that is not supported
  unfoldable pub normalize_image_mime : Text → Text
  normalize_image_mime mime =
      let normalized = lower (trim_space mime) in
      if text_eq normalized (codes "image/png")
      then codes "image/png"
      else if text_eq normalized (codes "image/jpeg") || text_eq normalized (codes "image/jpg")
      then codes "image/jpeg"
      else []

-- The headers of an upload.
unfoldable pub upload_headers : List (Option Cookie) → Text → List ℕ → Headers
unfolding set_header set_common_headers collect_cookies
upload_headers cookies mime content =
    let h : Headers = set_header (codes "Origin") copilot_origin (
      set_header (codes "Content-Length") (decimal (length content))
        (set_header (codes "Content-Type") mime (set_common_headers []))) in
    let cookie_header = collect_cookies cookies in
    if not (is_empty cookie_header) then set_header (codes "Cookie") cookie_header h else h

-- The checks on the response.
unfoldable pub uploaded_url : Uploads → Response → Result Text
unfolding truncate_for_error
uploaded_url p resp = do
  body ← map_err (wrapped (codes "read copilot attachment response")) resp.body
  refuse_if (not (resp.status_code == 200)) (
      upstream_error (
        codes "copilot attachment upload returned "
        ++ (decimal resp.status_code ++ (codes ": " ++ truncate_for_error body))))
  uploaded ← map_err (wrapped (codes "parse copilot attachment response")) (p.unmarshal body)
  refuse_if (is_empty uploaded.url) (upstream_error (codes "copilot attachment upload missing url"))
  ok uploaded.url

module _ ⦃u : Unicode⦄ (p : Uploads) (cookies : List (Option Cookie)) where
  -- UploadImage on a client that is not nil
  unfoldable pub upload_image : Text → List ℕ → Result Text
  unfolding normalize_image_mime upload_headers uploaded_url
  upload_image mime content = do
    refuse_if (length content == 0) (plain (codes "copilot attachment upload: empty image data"))
    let normalized = normalize_image_mime mime
    refuse_if (is_empty normalized)
        (plain (codes "copilot attachment upload: unsupported image mime type"))
    map_err (wrapped (codes "create copilot attachment request")) p.new_request
    resp ← map_err (wrapped (codes "copilot attachment upload")) (
        p.http_do (record {
          url = p.attachments_url;
          headers = upload_headers cookies normalized content;
          content = content;
        }))
    uploaded_url p resp

  upload_from : ℕ → List ImageInput → Result (List Text)
  unfolding upload_image
  upload_from i [] = ok []
  upload_from i (image ∷ images) = do
    url ←
        map_err (wrapped (codes "upload image " ++ decimal i)) (upload_image image.mime image.bytes)
    urls ← upload_from (i + 1) images
    ok (url ∷ urls)

  -- uploadImages
  unfoldable pub upload_images : List ImageInput → Result (List Text)
  unfolding upload_from
  upload_images images = upload_from 0 images
