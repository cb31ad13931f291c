-- ===== src/ModelId/Laws.antt =====
-- What normalizeModel of internal/openai/handler.go returns, and what becomes of it upstream.
use copilot_openai_proxy.Base.{
  ℕ, ◌≡◌, ◌≤◌, ◌⊎◌, ◌∷◌, All, length, refl, inl, inr, Bool, true, false, not, ◌||◌, [], arith, all,
  if◌then◌else◌, if_cases, Bool-cases,
}
use copilot_openai_proxy.Base.Text.{Text, codes, text_eq, text_eq_iff}
use copilot_openai_proxy.Base.Unicode.{Unicode, lower, trim_space}
use copilot_openai_proxy.Base.Plain.{is_plain, all_mono, lower_plain, trim_space_plain}
use copilot_openai_proxy.Errors.{is_empty}
use copilot_openai_proxy.ModelId.{
  byte_length, is_model_char, is_valid_model_id, is_known_model, normalize_model, mode_for_model,
  protocol_mode_and_product,
}

abbrev Valid : Text → Type 0
Valid id = is_valid_model_id id ≡ true

abbrev pub is_legacy : Text → Bool
is_legacy id =
    text_eq id (codes "creative") || (text_eq id (codes "balanced") || text_eq id (codes "precise"))

smart_valid : is_valid_model_id (codes "smart") ≡ true
unfolding is_valid_model_id
smart_valid = refl

known_valid : (id : Text) → is_known_model id ≡ true → is_valid_model_id id ≡ true
unfolding is_known_model is_valid_model_id
known_valid id h = elim (Bool-cases (text_eq id (codes "smart"))) [
  | inl e ↦ rw ((text_eq_iff _ _).0 e)
  | inr a ↦ elim (Bool-cases (text_eq id (codes "creative"))) [
    | inl e ↦ rw ((text_eq_iff _ _).0 e)
    | inr b ↦ elim (Bool-cases (text_eq id (codes "balanced"))) [
      | inl e ↦ rw ((text_eq_iff _ _).0 e)
      | inr c ↦ rw ((text_eq_iff id (codes "precise")).0 (ground (arith, h, a, b, c)))
    ]
  ]
]

valid_chars : (id : Text) → is_valid_model_id id ≡ true → all is_model_char id ≡ true
unfolding is_valid_model_id
valid_chars id h = ground arith

valid_nonempty : (id : Text) → is_valid_model_id id ≡ true → is_empty id ≡ false
unfolding is_valid_model_id
valid_nonempty id h = ground arith

-- What a name of a model is made of.
abbrev pub IsNameChar : ℕ → Type 0
IsNameChar c = ((97 ≤ c) × (c ≤ 122)) ⊎ (((48 ≤ c) × (c ≤ 57)) ⊎ ((c ≡ b'-') ⊎ (c ≡ b'_')))

-- A name of a model, by its number of characters and by each of them.
pub record IsModelName (id : Text) : Type 0 where
  pub some_char : 1 ≤ length id
  pub few_chars : length id ≤ 64
  pub name_chars : All IsNameChar id

model_char-IsNameChar : (c : ℕ) → is_model_char c ≡ true → IsNameChar c
model_char-IsNameChar c h = ground arith

model_chars-IsNameChar : (id : Text) → all is_model_char id ≡ true → All IsNameChar id
model_chars-IsNameChar [] h = tt
model_chars-IsNameChar (c ∷ id) h =
    (model_char-IsNameChar c (ground (arith, h)), model_chars-IsNameChar id (ground (arith, h)))

-- No code point has less than one byte.
length-byte_length : (id : Text) → length id ≤ byte_length id
unfolding byte_length
length-byte_length [] = omega arith
length-byte_length (c ∷ id) = ground (arith, length-byte_length id)

valid_short : (id : Text) → is_valid_model_id id ≡ true → byte_length id ≤ 64
unfolding is_valid_model_id
valid_short id h = ground arith

nonempty_length : (id : Text) → is_empty id ≡ false → 1 ≤ length id
nonempty_length [] h = ground arith
nonempty_length (c ∷ id) h = omega arith

valid-IsModelName : (id : Text) → is_valid_model_id id ≡ true → IsModelName id
valid-IsModelName id h = record {
  some_char = nonempty_length id (valid_nonempty id h);
  few_chars = omega (arith, length-byte_length id, valid_short id h);
  name_chars = model_chars-IsNameChar id (valid_chars id h);
}

model_char_plain : (c : ℕ) → is_model_char c ≡ true → is_plain c ≡ true
model_char_plain c h = ground arith

valid_plain : (id : Text) → is_valid_model_id id ≡ true → all is_plain id ≡ true
valid_plain id h = all_mono is_model_char is_plain id model_char_plain (valid_chars id h)

module _ ⦃u : Unicode⦄ where
  product_valid :
      (id : Text)
      → is_valid_model_id id ≡ true
      → protocol_mode_and_product id ≡ ((if is_legacy id then codes "chat" else id), id)
  unfolding protocol_mode_and_product
  product_valid id h =
      rw (trim_space_plain id (valid_plain id h), lower_plain id (valid_plain id h))
        (ground (
          arith,
          text_eq_iff id (codes "creative"),
          text_eq_iff id (codes "balanced"),
          text_eq_iff id (codes "precise"),
          text_eq_iff id [],
          valid_nonempty id h,
        ))

  -- Whatever a request names, what is taken for it passes isValidModelID.
  pub normalize_model_valid : (model : Text) → is_valid_model_id (normalize_model model) ≡ true
  unfolding normalize_model
  normalize_model_valid model =
      if_cases Valid (is_empty (trim_space model)) _ _ (λ _. smart_valid)
        λ _.
          if_cases Valid (is_known_model (lower (trim_space model))) _ _
            (known_valid (lower (trim_space model)))
            λ _.
              if_cases Valid (not (is_valid_model_id (lower (trim_space model)))) _ _
                (λ _. smart_valid) (λ ok. ground (arith, ok))

  -- A valid model ID is its own normal form.
  pub normalize_model_fixed : (id : Text) → is_valid_model_id id ≡ true → normalize_model id ≡ id
  unfolding normalize_model
  normalize_model_fixed id h =
      rw
        (
          trim_space_plain id (valid_plain id h),
          lower_plain id (valid_plain id h),
          valid_nonempty id h,
        )
        (ground (arith, h))

  -- Normalising twice, as ChatCompletions does through modeForModel, is normalising once.
  pub normalize_model_idempotent :
      (model : Text) → mode_for_model (normalize_model model) ≡ normalize_model model
  unfolding mode_for_model
  normalize_model_idempotent model =
      normalize_model_fixed (normalize_model model) (normalize_model_valid model)

  -- Whatever name a request gives, the model that it is answered under has at least one and at most 64
  -- characters, each a lower-case letter, a digit, a dash or an underscore.
  pub normalize_model-IsModelName : (model : Text) → IsModelName (normalize_model model)
  normalize_model-IsModelName model =
      valid-IsModelName (normalize_model model) (normalize_model_valid model)

  -- Whatever name a request gives, the model that it is answered under has at least one and at most 64
  -- characters, each a lower-case letter, a digit, a dash or an underscore; the mode that ChatCompletions
  -- hands to the client is that model; and of this mode, the protocol upstream has the product of the
  -- same name, with the mode "chat" for creative, balanced and precise, and of the same name otherwise.
  pub mode_upstream :
      (model : Text)
      → let id = normalize_model model in
        IsModelName id
        × (mode_for_model id ≡ id)
        × (protocol_mode_and_product (mode_for_model id)
            ≡ ((if is_legacy id then codes "chat" else id), id))
  mode_upstream model =
      let same = normalize_model_idempotent model in
      (
        normalize_model-IsModelName model,
        same,
        rw same (product_valid (normalize_model model) (normalize_model_valid model)),
      )
