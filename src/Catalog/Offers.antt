-- ===== src/Catalog/Offers.antt =====
-- From the catalog of internal/copilot/models.go to the list of models that
-- internal/openai/handler.go answers with, and back to the mode of a request.
use copilot_openai_proxy.Base.{
  ℕ, ◌≡◌, refl, sym, ap, true, false, List, [], ◌∷◌, ◌++◌, All, map, arith, length, ltb, ◌&&◌, ◌-◌,
  if_cases,
}
use copilot_openai_proxy.Base.Text.{Text, codes, text_eq}
use copilot_openai_proxy.Base.Unicode.{Unicode}
use copilot_openai_proxy.Base.Distinct.{elem}
use copilot_openai_proxy.Errors.{Err, wrapped, ok, err, is_empty}
use copilot_openai_proxy.ModelId.{is_valid_model_id, normalize_model}
use copilot_openai_proxy.ModelId.Laws.{normalize_model_fixed}
use copilot_openai_proxy.Requests.{
  ModelInfo, model_infos, models_or_smart, data_or_smart, write_models, listed, list_models,
}
use copilot_openai_proxy.Catalog.{
  Web, ModelCatalog, get_bytes, fetch_modes, finish_refresh, list_modes,
}
use copilot_openai_proxy.Catalog.Laws.{IsMode, Holds, Offers, list_modes-Listing}

abbrev pub model_info : Text → ModelInfo
model_info id = record { id = id }

valid_filled : (id : Text) → is_valid_model_id id ≡ true → is_empty id ≡ false
unfolding is_valid_model_id
valid_filled id h = ground arith

model_infos-valid :
    (modes : List Text) → All IsMode modes → model_infos modes ≡ map model_info modes
unfolding model_infos
model_infos-valid [] h = refl
model_infos-valid (id ∷ modes) h = rw (valid_filled id h.0, model_infos-valid modes h.1)

listed_modes :
    (modes : List Text)
    → Offers modes
    → list_models (codes "GET") (ok modes) ≡ listed (map model_info modes)
unfolding list_models write_models models_or_smart data_or_smart elem text_eq
listed_modes [] h = cc
listed_modes (id ∷ modes) h = rw (model_infos-valid (id ∷ modes) h.0)

module _ ⦃u : Unicode⦄ where
  chosen : (modes : List Text) → All IsMode modes → All (λ id. normalize_model id ≡ id) modes
  chosen [] h = tt
  chosen (id ∷ modes) h = (normalize_model_fixed id h.0, chosen modes h.1)

  -- Where the catalog holds no modes or a valid list of them, and other goroutines keep it so, it does
  -- after ListModes; and whatever the site answers, the list has "smart" in it, a GET on the models
  -- answers with exactly this list, and a request that names one of its models is served by it.
  pub listed_models_served :
      (w : Web) (now later : ℕ) (others : ModelCatalog → ModelCatalog) (c : ModelCatalog)
      → ((d : ModelCatalog) → Holds d.modes → Holds (others d).modes)
      → Holds c.modes
      → let (c', modes) = list_modes w now later others c in
        Holds c'.modes
        × (elem (codes "smart") modes ≡ true)
        × (list_models (codes "GET") (ok modes) ≡ listed (map model_info modes))
        × All (λ id. normalize_model id ≡ id) modes
  listed_models_served w now later others c fair h =
      let l = list_modes-Listing w now later others c fair h in
      (
        l.0,
        l.1.1,
        listed_modes (list_modes w now later others c).1 l.1,
        chosen (list_modes w now later others c).1 l.1.0,
      )

  abbrev pub or_smart : List Text → List Text
  or_smart [] = codes "smart" ∷ []
  or_smart (mode ∷ modes) = mode ∷ modes

  fetch_modes_offline :
      (w : Web) (base_url : Text) (e : Err)
      → get_bytes w (base_url ++ codes "/") ≡ err e
      → fetch_modes w base_url ≡ err (wrapped (codes "fetch copilot home") e)
  unfolding fetch_modes
  fetch_modes_offline w base_url e down = rw down

  kept :
      (w : Web) (later : ℕ) (stale : List Text) (e : Err) (c : ModelCatalog)
      → finish_refresh w later stale (err e) c ≡ (c, or_smart stale)
  unfolding finish_refresh
  kept w later [] e c = refl
  kept w later (mode ∷ modes) e c = refl

  or_smart-filled : (modes : List Text) → ltb 0 (length modes) ≡ true → or_smart modes ≡ modes
  or_smart-filled [] h = cc
  or_smart-filled (mode ∷ modes) h = refl

  -- Where the site's first page cannot be had and no other goroutine changes the catalog, ListModes
  -- leaves the catalog as it is and returns its modes, whether they are stale or not, or "smart" alone
  -- if it has none.
  pub list_modes-offline :
      (w : Web) (now later : ℕ) (others : ModelCatalog → ModelCatalog) (c : ModelCatalog) (e : Err)
      → get_bytes w (c.base_url ++ codes "/") ≡ err e
      → others c ≡ c
      → list_modes w now later others c ≡ (c, or_smart c.modes)
  unfolding list_modes
  list_modes-offline w now later others c e down alone =
      if_cases (λ q. q ≡ (c, or_smart c.modes))
        (ltb 0 (length c.modes) && ltb (now - c.fetched_at) c.ttl) (c, c.modes)
        (finish_refresh w later c.modes (fetch_modes w c.base_url) (others c))
        (λ cached.
          ap (λ (modes : List Text). (c, modes))
            (sym (or_smart-filled c.modes (ground (arith, cached)))))
        λ stale.
          rw (alone, fetch_modes_offline w c.base_url e down)
            (kept w later c.modes (wrapped (codes "fetch copilot home") e) c)
