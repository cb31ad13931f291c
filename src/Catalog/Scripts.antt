-- ===== src/Catalog/Scripts.antt =====
-- discoverScriptURLs and resolveURL of internal/copilot/models.go.
use copilot_openai_proxy.Base.{◌||◌, Option, none, some, List, [], ◌∷◌, ◌++◌, if◌then◌else◌}
use copilot_openai_proxy.Base.Text.{Text, codes, text_eq}
use copilot_openai_proxy.Base.Unicode.{Unicode, trim_space}
use copilot_openai_proxy.Base.Distinct.{elem}
use copilot_openai_proxy.Errors.{is_empty}

-- url.Parse of a base and Parse of a reference against it, `none` for an error: the scheme and the text
-- of the result.
pub record Urls : Type 0 where
  pub resolve : Text → Text → Option (Text × Text)

module _ ⦃u : Unicode⦄ (lib : Urls) where
  -- resolveURL
  unfoldable pub resolve_url : Text → Text → Text
  resolve_url base_url ref =
      let trimmed = trim_space ref in
      if is_empty trimmed then [] else elim (lib.resolve (base_url ++ codes "/") trimmed) [
        | none ↦ []
        | some (scheme, text) ↦
            if text_eq scheme (codes "http") || text_eq scheme (codes "https") then text else []
      ]

  -- The closure `add`; the keys of `seen` are the elements of `out`.
  unfoldable pub add_script : Text → List Text → Text → List Text
  unfolding resolve_url elem
  add_script base_url out raw =
      let abs = resolve_url base_url raw in
      if is_empty abs then out else if elem abs out then out else out ++ abs ∷ []

  unfoldable pub add_scripts : Text → List Text → List Text → List Text
  unfolding add_script
  add_scripts base_url out [] = out
  add_scripts base_url out (raw ∷ raws) = add_scripts base_url (add_script base_url out raw) raws

  -- discoverScriptURLs, on what the two expressions find
  unfoldable pub discover_script_urls : Text → List Text → List Text → List Text
  unfolding add_scripts
  discover_script_urls base_url entries scripts =
      add_scripts base_url (add_scripts base_url [] entries) scripts
