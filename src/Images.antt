-- ===== src/Images.antt =====
-- internal/openai/images.go, parseImageURLPart and parseDataImageURL: an image from a data URL. What
-- packages fmt and encoding/base64 give is a parameter.
pub mod Laws
use copilot_openai_proxy.Base.{
  ℕ, zero, suc, ◌+◌, ◌*◌, ◌^◌, Bool, true, false, not, ◌&&◌, ◌||◌, Option, none, some, List, [],
  ◌∷◌, ◌++◌, length, any, ltb, leb, ◌==◌, if◌then◌else◌,
}
use copilot_openai_proxy.Base.Text.{Text, codes, text_eq, has_prefix, join}
use copilot_openai_proxy.Base.Unicode.{Unicode, lower, trim_space, equal_fold}
use copilot_openai_proxy.Errors.{Err, plain, wrapped, Result, ok, err, is_empty}

-- A value of encoding/json, as far as the program tells values apart.
mutual
  pub data Json : Type 0 where
    str : Text → Json
    arr : Items → Json
    obj : Fields → Json
    -- null, a number or a Boolean, by its text
    other : Text → Json

  pub data Items : Type 0 where
    no_items : Items
    item : Json → Items → Items

  pub data Fields : Type 0 where
    no_fields : Fields
    field : Text → Json → Fields → Fields

pub record ImageInput : Type 0 where
  pub mime : Text
  pub bytes : List ℕ

abbrev pub max_image_bytes : ℕ
max_image_bytes = 10 * 2 ^ 20

-- What the code takes from packages fmt and encoding/base64.
pub record Library : Type 0 where
  -- fmt.Sprintf("%v", content)
  pub print_value : Json → Text
  -- the verb %q
  pub quote : Text → Text
  -- base64.StdEncoding.DecodeString and base64.RawStdEncoding.DecodeString
  pub decode_padded : Text → Result (List ℕ)
  pub decode_raw : Text → Result (List ℕ)

-- `m[key]`, none where the key is missing
unfoldable pub lookup_field : Text → Fields → Option Json
lookup_field key no_fields = none
lookup_field key (field k v fs) = if text_eq k key then some v else lookup_field key fs

-- strings.IndexByte(s, ',') and the two slices around it
unfoldable pub cut_comma : Text → Option (Text × Text)
cut_comma [] = none
cut_comma (c ∷ s) =
    let rest = cut_comma s in
    if c == b','
    then some ([], s)
    else elim rest [ none ↦ none | some (before, after) ↦ some (c ∷ before, after) ]

-- strings.Split(s, ";"): the first part and the others
unfoldable pub split_semicolon : Text → Text × List Text
split_semicolon [] = ([], [])
split_semicolon (c ∷ s) =
    let (part, parts) = split_semicolon s in
    if c == b';' then ([], part ∷ parts) else (c ∷ part, parts)

unfoldable pub drop_chars : ℕ → Text → Text
drop_chars zero s = s
drop_chars (suc n) [] = []
drop_chars (suc n) (c ∷ s) = drop_chars n s

module _ ⦃u : Unicode⦄ (lib : Library) where
  -- base64 with padding, or else without
  unfoldable pub decode_image : Text → Result (List ℕ)
  decode_image payload = elim (lib.decode_padded payload) [
    | ok bytes ↦ ok bytes
    | err e ↦ elim (lib.decode_raw payload) [
      | ok bytes ↦ ok bytes
      | err e' ↦ err (wrapped (codes "invalid base64 image data") e')
    ]
  ]

  -- the checks on the decoded bytes
  unfoldable pub check_bytes : Text → List ℕ → Result ImageInput
  check_bytes mime bytes =
      if length bytes == 0
      then err (plain (codes "decoded image data is empty"))
      else if ltb max_image_bytes (length bytes)
      then err (plain (codes "image exceeds maximum size of 10485760 bytes"))
      else ok (record { mime = mime; bytes = bytes })

  unfoldable pub check_decoded : Text → Result (List ℕ) → Result ImageInput
  unfolding check_bytes
  check_decoded mime (ok bytes) = check_bytes mime bytes
  check_decoded mime (err e) = err e

  unfoldable pub is_base64_part : Text → Bool
  is_base64_part part = equal_fold (trim_space part) (codes "base64")

  -- `mime` after "image/jpg" was replaced
  unfoldable pub image_mime : Text → Text
  image_mime part =
      let mime = lower (trim_space part) in
      if text_eq mime (codes "image/jpg") then codes "image/jpeg" else mime

  unsupported_mime : Text → Text
  unsupported_mime mime =
      codes "unsupported image mime type "
      ++ (lib.quote mime ++ codes "; only image/png and image/jpeg are supported")

  -- the part of parseDataImageURL after the comma was found
  unfoldable pub parse_meta : Text → List Text → Text → Result ImageInput
  unfolding unsupported_mime image_mime is_base64_part check_decoded decode_image
  parse_meta first others payload =
      let mime = image_mime first in
      if is_empty payload
      then err (plain (codes "invalid data URI: empty image data"))
      else if not (text_eq mime (codes "image/png") || text_eq mime (codes "image/jpeg"))
      then err (plain (unsupported_mime mime))
      else if not (any is_base64_part others)
      then err (plain (codes "only base64 data:image URIs are supported"))
      else check_decoded mime (decode_image payload)

  unfoldable pub parse_data_image_url : Text → Result ImageInput
  unfolding parse_meta split_semicolon cut_comma drop_chars
  parse_data_image_url raw =
      let url = trim_space raw in
      if is_empty url
      then err (plain (codes "image_url.url is required"))
      else if not (has_prefix (lower url) (codes "data:"))
      then err (
          plain (
            codes
              "only data:image URI image_url values are supported; external https URLs are not fetched"))
      else elim (cut_comma (drop_chars 5 url)) [
        | none ↦ err (plain (codes "invalid data URI: missing comma"))
        | some (meta, payload) ↦
            let (first, others) = split_semicolon meta in parse_meta first others payload
      ]

  unfoldable pub text_field : Option Json → Text
  text_field (some (str s)) = s
  text_field _ = []

  -- parseImageURLPart; none is a missing "image_url"
  unfoldable pub parse_image_url_part : Option Json → Result ImageInput
  unfolding parse_data_image_url text_field
  parse_image_url_part (some (obj fs)) =
      parse_data_image_url (text_field (lookup_field (codes "url") fs))
  parse_image_url_part (some (str s)) = parse_data_image_url s
  parse_image_url_part _ = err (plain (codes "image_url must be an object with a url field"))
