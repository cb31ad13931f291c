-- ===== src/ModelId.antt =====
-- Model names: normalizeModel, isValidModelID and modeForModel of internal/openai/handler.go, and
-- protocolModeAndProduct of internal/copilot/outbound.go.
pub mod Laws
use copilot_openai_proxy.Base.{
  ℕ, zero, suc, ◌+◌, Bool, true, false, not, ◌&&◌, ◌||◌, List, [], ◌∷◌, all, any, ltb, leb, ◌==◌,
  if◌then◌else◌,
}
use copilot_openai_proxy.Base.Text.{Text, codes, text_eq}
use copilot_openai_proxy.Base.Unicode.{Unicode, lower, trim_space}
use copilot_openai_proxy.Errors.{is_empty}

-- The bytes of a code point in UTF-8, and `len(s)`.
abbrev pub utf8_width : ℕ → ℕ
utf8_width c = if ltb c 0x80 then 1 else if ltb c 0x800 then 2 else if ltb c 0x10000 then 3 else 4

unfoldable pub byte_length : Text → ℕ
byte_length [] = 0
byte_length (c ∷ s) = utf8_width c + byte_length s

-- The characters of strings.ContainsAny(id, " \t\r\n").
abbrev pub is_blank : ℕ → Bool
is_blank c = ((c == 32) || (c == 9)) || ((c == 13) || (c == 10))

abbrev pub is_model_char : ℕ → Bool
is_model_char c =
    (leb b'a' c && leb c b'z') || ((leb b'0' c && leb c b'9') || ((c == b'-') || (c == b'_')))

-- isValidModelID
unfoldable pub is_valid_model_id : Text → Bool
unfolding byte_length
is_valid_model_id id =
    if is_empty id || ltb 64 (byte_length id)
    then false
    else if any is_blank id
    then false
    else all is_model_char id

-- The names that normalizeModel takes without a further test.
unfoldable pub is_known_model : Text → Bool
is_known_model id =
    (text_eq id (codes "smart") || text_eq id (codes "creative"))
    || (text_eq id (codes "balanced") || text_eq id (codes "precise"))

module _ ⦃u : Unicode⦄ where
  unfoldable pub normalize_model : Text → Text
  unfolding is_valid_model_id is_known_model
  normalize_model model =
      let trimmed = trim_space model in
      let normalized = lower trimmed in
      if is_empty trimmed
      then codes "smart"
      else if is_known_model normalized
      then normalized
      else if not (is_valid_model_id normalized)
      then codes "smart"
      else normalized

  -- modeForModel
  unfoldable pub mode_for_model : Text → Text
  unfolding normalize_model
  mode_for_model = normalize_model

  -- protocolModeAndProduct
  unfoldable pub protocol_mode_and_product : Text → Text × Text
  protocol_mode_and_product model =
      let normalized = lower (trim_space model) in
      if text_eq normalized (codes "creative")
      then (codes "chat", codes "creative")
      else if text_eq normalized (codes "balanced")
      then (codes "chat", codes "balanced")
      else if text_eq normalized (codes "precise")
      then (codes "chat", codes "precise")
      else if text_eq normalized []
      then (codes "smart", codes "smart")
      else (normalized, normalized)
