-- ===== src/Images/Laws.antt =====
-- Which images parseDataImageURL of internal/openai/images.go lets through.
use copilot_openai_proxy.Base.{
  ℕ, ◌≤◌, ◌≡◌, inl, inr, ◌⊎◌, false, not, ◌||◌, Option, none, some, List, length, any, arith, ltb,
  ◌==◌, Bool-cases, Option-cases, if_cases, ltb-false,
}
use copilot_openai_proxy.Base.Text.{Text, codes, text_eq, text_eq_iff, has_prefix}
use copilot_openai_proxy.Base.Unicode.{Unicode, trim_space, lower}
use copilot_openai_proxy.Errors.{Result, ok, err, is_empty}
use copilot_openai_proxy.Images.{
  Json, ImageInput, Library, max_image_bytes, check_decoded, parse_meta, parse_data_image_url,
  parse_image_url_part, image_mime, split_semicolon, is_base64_part, decode_image, cut_comma,
  drop_chars,
}

-- An image that may be uploaded: PNG or JPEG, not empty, at most 10 MiB.
abbrev pub IsGood : ImageInput → Type 0
IsGood image =
    ((image.mime ≡ codes "image/png") ⊎ (image.mime ≡ codes "image/jpeg"))
    × (1 ≤ length image.bytes)
    × (length image.bytes ≤ max_image_bytes)

abbrev pub GoodImage : Result ImageInput → Type 0
GoodImage (ok image) = IsGood image
GoodImage (err e) = Unit {0}

abbrev pub Supported : Text → Type 0
Supported mime = (mime ≡ codes "image/png") ⊎ (mime ≡ codes "image/jpeg")

Supported-text_eq :
    (mime : Text)
    → not (text_eq mime (codes "image/png") || text_eq mime (codes "image/jpeg")) ≡ false
    → Supported mime
Supported-text_eq mime h = elim (Bool-cases (text_eq mime (codes "image/png"))) [
  | inl png ↦ inl ((text_eq_iff _ _).0 png)
  | inr other ↦ inr ((text_eq_iff mime (codes "image/jpeg")).0 (ground (arith, h, other)))
]

module _ ⦃u : Unicode⦄ (lib : Library) where
  check_decoded-GoodImage :
      (mime : Text) (r : Result (List ℕ)) → Supported mime → GoodImage (check_decoded lib mime r)
  unfolding check_decoded
  check_decoded-GoodImage mime (ok bytes) kind =
      if_cases GoodImage (length bytes == 0) _ _ (λ _. tt)
        λ filled.
          if_cases GoodImage (ltb max_image_bytes (length bytes)) _ _ (λ _. tt)
            λ fits. (kind, ground (arith, filled), ltb-false max_image_bytes (length bytes) fits)
  check_decoded-GoodImage mime (err e) kind = tt

  parse_meta-GoodImage :
      (first : Text) (others : List Text) (payload : Text)
      → GoodImage (parse_meta lib first others payload)
  unfolding parse_meta
  parse_meta-GoodImage first others payload =
      if_cases GoodImage (is_empty payload) _ _ (λ _. tt)
        λ _.
          if_cases GoodImage
            (not (
              text_eq (image_mime lib first) (codes "image/png")
              || text_eq (image_mime lib first) (codes "image/jpeg")))
            _ _ (λ _. tt)
            λ known.
              if_cases GoodImage (not (any (is_base64_part lib) others)) _ _ (λ _. tt)
                λ _.
                  check_decoded-GoodImage (image_mime lib first) (decode_image lib payload)
                    (Supported-text_eq (image_mime lib first) known)

  parse_data_image_url-GoodImage : (url : Text) → GoodImage (parse_data_image_url lib url)
  unfolding parse_data_image_url
  parse_data_image_url-GoodImage raw =
      if_cases GoodImage (is_empty (trim_space raw)) _ _ (λ _. tt)
        λ _.
          if_cases GoodImage (not (has_prefix (lower (trim_space raw)) (codes "data:"))) _ _
            (λ _. tt)
            λ _. elim (Option-cases (cut_comma (drop_chars 5 (trim_space raw)))) [
              | inl e ↦ rw e tt
              | inr ((meta, payload), e) ↦
                  rw e
                    (parse_meta-GoodImage (split_semicolon meta).0 (split_semicolon meta).1 payload)
            ]

  pub parse_image_url_part-GoodImage :
      (raw : Option Json) → GoodImage (parse_image_url_part lib raw)
  unfolding parse_image_url_part
  parse_image_url_part-GoodImage (some (Json.obj fs)) = parse_data_image_url-GoodImage _
  parse_image_url_part-GoodImage (some (Json.str s)) = parse_data_image_url-GoodImage s
  parse_image_url_part-GoodImage (some (Json.arr xs)) = tt
  parse_image_url_part-GoodImage (some (Json.other s)) = tt
  parse_image_url_part-GoodImage none = tt
