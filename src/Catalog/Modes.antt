-- ===== src/Catalog/Modes.antt =====
-- parseModesFromJS and isPlausibleModeID of internal/copilot/models.go.
use copilot_openai_proxy.Base.{
  ℕ, ◌+◌, ◌-◌, Bool, false, not, ◌&&◌, ◌||◌, Option, none, some, List, [], ◌∷◌, ◌++◌, all, length,
  ltb, leb, if◌then◌else◌,
}
use copilot_openai_proxy.Base.Text.{Text, codes, has_prefix}
use copilot_openai_proxy.Base.Unicode.{Unicode, lower, trim_space}
use copilot_openai_proxy.Base.Distinct.{elem}
use copilot_openai_proxy.Errors.{is_empty}
use copilot_openai_proxy.ClientConfig.{first_codes}
use copilot_openai_proxy.Images.{drop_chars}
use copilot_openai_proxy.ModelId.{byte_length}

abbrev pub max_model_id_len : ℕ
max_model_id_len = 64

abbrev pub noise : List Text
noise =
    codes "type"
    ∷ codes "event"
    ∷ codes "ai"
    ∷ codes "text"
    ∷ codes "image"
    ∷ codes "null"
    ∷ codes "true"
    ∷ codes "false"
    ∷ codes "enum"
    ∷ []

abbrev pub is_mode_char : ℕ → Bool
is_mode_char r = (leb b'a' r && leb r b'z') || (leb b'0' r && leb r b'9')

-- isPlausibleModeID
unfoldable pub is_plausible_mode_id : Text → Bool
unfolding elem
is_plausible_mode_id id =
    if is_empty id then false else if elem id noise then false else all is_mode_char id

-- strings.Index, `none` for -1
unfoldable pub index_of : Text → Text → Option ℕ
unfolding has_prefix
index_of [] sub = if has_prefix [] sub then some 0 else none
index_of (c ∷ s) sub =
    let rest = index_of s sub in
    if has_prefix (c ∷ s) sub then some 0 else elim rest [ none ↦ none | some i ↦ some (i + 1) ]

abbrev pub smaller : ℕ → ℕ → ℕ
smaller a b = if ltb b a then b else a

abbrev pub larger : ℕ → ℕ → ℕ
larger a b = if ltb a b then b else a

-- `js[start:end]` for bounds in range
abbrev pub slice : ℕ → ℕ → Text → Text
slice start end js = first_codes (end - start) (drop_chars start js)

-- The window around the characteristic trio.
unfoldable pub mode_window : Text → Option ℕ → Option ℕ → Option ℕ → Option Text
mode_window js (some smart) (some reasoning) (some coco) =
    let start = smaller (smaller smart reasoning) coco in
    let end = larger (larger smart reasoning) coco in
    some (slice (start - 256) (smaller (length js) (end + 256)) js)
mode_window js _ _ _ = none

-- The text in which modes are looked for.
unfoldable pub mode_text : Text → Text → Option Text
unfolding mode_window index_of
mode_text js match =
    if is_empty match
    then mode_window js (index_of js (codes "\"smart\"")) (index_of js (codes "\"reasoning\""))
        (index_of js (codes "\"coco\""))
    else some match

module _ ⦃u : Unicode⦄ where
  -- A round of the loop; the keys of `seen` are the elements of `out`.
  unfoldable pub add_mode : List Text → Text → List Text
  unfolding is_plausible_mode_id elem
  add_mode out m =
      let id = lower (trim_space m) in
      if is_empty id || ltb max_model_id_len (byte_length id)
      then out
      else if not (is_plausible_mode_id id)
      then out
      else if elem id out
      then out
      else out ++ id ∷ []

  unfoldable pub add_modes : List Text → List Text → List Text
  unfolding add_mode
  add_modes out [] = out
  add_modes out (m ∷ raw) = add_modes (add_mode out m) raw

  -- The last test; `hasSmart` and `hasReasoning` say that the ID was appended.
  unfoldable pub complete_modes : List Text → List Text
  unfolding elem
  complete_modes out =
      if not (elem (codes "smart") out)
        || (not (elem (codes "reasoning") out) || ltb (length out) 3)
      then []
      else out

  -- parseModesFromJS, with the two expressions that it uses; nil and an empty list are one
  unfoldable pub parse_modes_from_js : (Text → Text) → (Text → List Text) → Text → List Text
  unfolding complete_modes add_modes mode_text
  parse_modes_from_js find_catalog find_quoted js = elim (mode_text js (find_catalog js)) [
    | none ↦ []
    | some match ↦ complete_modes (add_modes [] (find_quoted match))
  ]
