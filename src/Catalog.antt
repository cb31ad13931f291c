-- ===== src/Catalog.antt =====
-- internal/copilot/models.go: the catalog of conversation modes. Regular expressions, URLs and the
-- exchange with the site are parameters. A page and a script are lists of bytes, as in the source.
pub mod Scripts
pub mod Modes
pub mod Laws
pub mod Offers
use copilot_openai_proxy.Base.{
  ℕ, ◌+◌, ◌-◌, ◌*◌, ◌^◌, Bool, true, false, not, ◌&&◌, Option, none, some, List, [], ◌∷◌, ◌++◌,
  length, ltb, leb, ◌==◌, if◌then◌else◌,
}
use mathlib.Core.List.{reverse}
use copilot_openai_proxy.Base.Int.{ℤ, pos, negsuc, leb_ℤ}
use copilot_openai_proxy.Base.Text.{Text, codes}
use copilot_openai_proxy.Base.Unicode.{Unicode, trim_space}
use copilot_openai_proxy.Base.Decimal.{decimal}
use copilot_openai_proxy.Errors.{
  Err, plain, wrapped, Result, ok, err, is_empty, is_nil, ◌>>=◌, ◌>>◌, map_err, refuse_if,
}
use copilot_openai_proxy.Http.{
  Headers, set_header, Request, Response, copilot_origin, copilot_user_agent, accept_language,
}
use copilot_openai_proxy.ClientConfig.{first_codes}
use copilot_openai_proxy.Catalog.Scripts.{Urls, discover_script_urls}
use copilot_openai_proxy.Catalog.Modes.{parse_modes_from_js}

-- What the catalog uses of regexp and net/http.
pub record Web : Type 0 where
  pub urls : Urls
  -- modeCatalogRe.FindString, and the first groups that quotedIdentRe finds
  pub find_catalog : Text → Text
  pub find_quoted : Text → List Text
  -- the first groups that entrySSRScriptRe and anyScriptSrcRe find
  pub find_entry_scripts : Text → List Text
  pub find_scripts : Text → List Text
  -- http.NewRequestWithContext, and the client's Do
  pub new_request : Text → Result (Unit {0})
  pub http_do : Request → Result Response

abbrev pub catalog_headers : Headers
catalog_headers =
    (codes "User-Agent", copilot_user_agent)
    ∷ (codes "Accept", codes "*/*")
    ∷ (codes "Accept-Language", accept_language)
    ∷ []

-- ModelCatalog; times are counted from an origin.
pub record ModelCatalog : Type 0 where
  pub base_url : Text
  pub ttl : ℕ
  pub modes : List Text
  pub fetched_at : ℕ

abbrev pub default_models_ttl : ℕ
default_models_ttl = 3600 * 10 ^ 9

-- strings.TrimRight(s, "/"), from the end
drop_slashes : Text → Text
drop_slashes [] = []
drop_slashes (c ∷ s) = let rest = drop_slashes s in if c == b'/' then rest else c ∷ s

abbrev positive_ttl : ℤ → ℕ
positive_ttl (pos n) = if n == 0 then default_models_ttl else n
positive_ttl (negsuc n) = default_models_ttl

-- newModelCatalog
unfoldable pub new_model_catalog : ⦃u : Unicode⦄ → Text → ℤ → ModelCatalog
unfolding drop_slashes
new_model_catalog base_url ttl = record {
  base_url = reverse (
      drop_slashes (reverse (if is_empty (trim_space base_url) then copilot_origin else base_url)));
  ttl = positive_ttl ttl;
  modes = [];
  fetched_at = 0;
}

-- modelsBaseURLFromStart, with the scheme and the host of what url.Parse gives
unfoldable pub models_base_url_from_start : (Text → Option (Text × Text)) → Text → Text
models_base_url_from_start parse start_url = elim (parse start_url) [
  | none ↦ copilot_origin
  | some (scheme, host) ↦
      if is_empty scheme
      then copilot_origin
      else if is_empty host
      then copilot_origin
      else scheme ++ (codes "://" ++ host)
]

module _ (w : Web) where
  -- getBytes; at most 8 MiB of a body are read
  unfoldable pub get_bytes : Text → Result Text
  get_bytes raw_url = do
    w.new_request raw_url
    resp ← w.http_do (record { url = raw_url; headers = catalog_headers; content = [] })
    body ← resp.body
    refuse_if (not (resp.status_code == 200))
        (plain (codes "unexpected status " ++ decimal resp.status_code))
    ok (first_codes (8 * 2 ^ 20) body)

module _ ⦃u : Unicode⦄ (w : Web) where
  -- The modes of the first script that has some, or the last error.
  unfoldable pub first_modes : Err → List Text → Result (List Text)
  unfolding get_bytes
  first_modes last [] =
      err (if is_nil last then plain (codes "no conversation modes found") else last)
  first_modes last (script_url ∷ rest) = elim (get_bytes w script_url) [
    | err e ↦ first_modes (wrapped (codes "fetch " ++ script_url) e) rest
    | ok js ↦ elim (parse_modes_from_js w.find_catalog w.find_quoted js) [
      | [] ↦ first_modes (plain (codes "no conversation modes in " ++ script_url)) rest
      | mode ∷ modes ↦ ok (mode ∷ modes)
    ]
  ]

  unfoldable pub modes_of_scripts : List Text → Result (List Text)
  unfolding first_modes
  modes_of_scripts script_urls = do
    refuse_if (length script_urls == 0)
        (plain (codes "no javascript bundles found on copilot home page"))
    first_modes Err.nil script_urls

  -- refresh, but for the write of the modes
  unfoldable pub fetch_modes : Text → Result (List Text)
  unfolding modes_of_scripts get_bytes
  fetch_modes base_url = do
    home_html ← map_err (wrapped (codes "fetch copilot home")) (get_bytes w (base_url ++ codes "/"))
    modes_of_scripts (
        discover_script_urls w.urls base_url (w.find_entry_scripts home_html)
          (w.find_scripts home_html))

  -- The end of ListModes after a refresh: the catalog as it is by then, and the list to return.
  unfoldable pub finish_refresh :
      ℕ → List Text → Result (List Text) → ModelCatalog → ModelCatalog × List Text
  finish_refresh later stale (ok modes) c = (record c { modes = modes; fetched_at = later }, modes)
  finish_refresh later [] (err e) c = (c, codes "smart" ∷ [])
  finish_refresh later (mode ∷ modes) (err e) c = (c, mode ∷ modes)

  -- ListModes on a catalog that is not nil, at a time, with the time of the write, and what other
  -- goroutines make of the catalog during the refresh. Its error is always nil.
  unfoldable pub list_modes :
      ℕ → ℕ → (ModelCatalog → ModelCatalog) → ModelCatalog → ModelCatalog × List Text
  unfolding finish_refresh fetch_modes
  list_modes now later others c =
      if ltb 0 (length c.modes) && ltb (now - c.fetched_at) c.ttl
      then (c, c.modes)
      else finish_refresh later c.modes (fetch_modes c.base_url) (others c)
