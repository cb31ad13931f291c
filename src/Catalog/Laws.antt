-- ===== src/Catalog/Laws.antt =====
-- What the catalog of internal/copilot/models.go may hold and what ListModes returns.
use copilot_openai_proxy.Base.{
  ℕ, ◌≤◌, ◌-◌, ◌≡◌, refl, true, false, not, ◌&&◌, ◌||◌, Option, none, some, List, [], ◌∷◌, ◌++◌,
  All, All-append, all, any, length, arith, ltb, ltb-false, if_cases,
}
use copilot_openai_proxy.Base.Text.{Text, codes, text_eq}
use copilot_openai_proxy.Base.Unicode.{Unicode, lower, trim_space}
use copilot_openai_proxy.Base.Plain.{all_mono}
use copilot_openai_proxy.Base.Distinct.{elem, Distinct, append-Distinct}
use copilot_openai_proxy.Errors.{Err, plain, wrapped, Result, ok, err, is_empty, ◌>>=◌, map_err}
use copilot_openai_proxy.ModelId.{is_blank, is_model_char, is_valid_model_id, byte_length}
use copilot_openai_proxy.Catalog.Modes.{
  is_mode_char, is_plausible_mode_id, mode_text, add_mode, add_modes, complete_modes,
  parse_modes_from_js, max_model_id_len,
}
use copilot_openai_proxy.Catalog.{
  Web, ModelCatalog, get_bytes, first_modes, modes_of_scripts, fetch_modes, finish_refresh,
  list_modes,
}

abbrev pub IsMode : Text → Type 0
IsMode id = is_valid_model_id id ≡ true

-- A list of modes that a client can choose from: valid names, no name twice, and at least "smart",
-- "reasoning" and a third one.
pub record IsCatalog (modes : List Text) : Type 0 where
  pub valid : All IsMode modes
  pub distinct : Distinct modes
  pub has_smart : elem (codes "smart") modes ≡ true
  pub has_reasoning : elem (codes "reasoning") modes ≡ true
  pub three : 3 ≤ length modes

-- The modes of a catalog, which may have none yet.
abbrev pub Holds : List Text → Type 0
Holds [] = Unit {0}
Holds (mode ∷ modes) = IsCatalog (mode ∷ modes)

mode_char_model : (c : ℕ) → is_mode_char c ≡ true → is_model_char c ≡ true
mode_char_model c h = ground arith

mode_chars_blank : (id : Text) → all is_mode_char id ≡ true → any is_blank id ≡ false
mode_chars_blank [] h = refl
mode_chars_blank (c ∷ id) h = ground (arith, mode_chars_blank id)

plausible_valid :
    (id : Text)
    → (is_empty id || ltb max_model_id_len (byte_length id)) ≡ false
    → is_plausible_mode_id id ≡ true
    → is_valid_model_id id ≡ true
unfolding is_plausible_mode_id is_valid_model_id
plausible_valid id short plausible =
    let chars : all is_mode_char id ≡ true = ground (arith, plausible) in
    ground (
      arith,
      short,
      mode_chars_blank id chars,
      all_mono is_mode_char is_model_char id mode_char_model chars,
    )

module _ ⦃u : Unicode⦄ where
  abbrev Collected : List Text → Type 0
  Collected out = All IsMode out × Distinct out

  add_mode-Collected : (out : List Text) (m : Text) → Collected out → Collected (add_mode out m)
  unfolding add_mode
  add_mode-Collected out m h =
      let id = lower (trim_space m) in
      if_cases Collected (is_empty id || ltb max_model_id_len (byte_length id)) _ _ (λ _. h)
        λ short.
          if_cases Collected (not (is_plausible_mode_id id)) _ _ (λ _. h)
            λ plausible.
              if_cases Collected (elem id out) _ _ (λ _. h)
                λ new. (
                  All-append IsMode out (id ∷ []) h.0
                      (plausible_valid id short (ground (arith, plausible)), tt),
                  append-Distinct id out new h.1,
                )

  add_modes-Collected : (out raw : List Text) → Collected out → Collected (add_modes out raw)
  unfolding add_modes
  add_modes-Collected out [] h = h
  add_modes-Collected out (m ∷ raw) h =
      add_modes-Collected (add_mode out m) raw (add_mode-Collected out m h)

  complete_modes-Holds : (out : List Text) → Collected out → Holds (complete_modes out)
  unfolding complete_modes
  complete_modes-Holds [] h = tt
  complete_modes-Holds (mode ∷ modes) h =
      if_cases Holds
        (not (elem (codes "smart") (mode ∷ modes))
          || (not (elem (codes "reasoning") (mode ∷ modes)) || ltb (length (mode ∷ modes)) 3))
        _ _ (λ _. tt)
        λ complete. record {
          valid = h.0;
          distinct = h.1;
          has_smart = ground (arith, complete);
          has_reasoning = ground (arith, complete);
          three = ltb-false (length (mode ∷ modes)) 3 (ground (arith, complete));
        }

  parse_modes-Holds :
      (find_catalog : Text → Text) (find_quoted : Text → List Text) (js : Text)
      → Holds (parse_modes_from_js find_catalog find_quoted js)
  unfolding parse_modes_from_js
  parse_modes-Holds find_catalog find_quoted js = searched (mode_text js (find_catalog js))
    where
      searched :
          (window : Option Text)
          → Holds (elim window [
            | none ↦ []
            | some match ↦ complete_modes (add_modes [] (find_quoted match))
          ])
      searched none = tt
      searched (some match) =
          complete_modes-Holds _ (add_modes-Collected [] (find_quoted match) (tt, tt))

  abbrev Fetched : Result (List Text) → Type 0
  Fetched (ok modes) = IsCatalog modes
  Fetched (err e) = Unit {0}

  tried-Fetched :
      (modes : List Text) (rest : Result (List Text))
      → Holds modes
      → Fetched rest
      → Fetched (elim modes [ [] ↦ rest | mode ∷ others ↦ ok (mode ∷ others) ])
  tried-Fetched [] rest h r = r
  tried-Fetched (mode ∷ modes) rest h r = h

  answered-Fetched :
      (w : Web) (failed : Err → Result (List Text)) (empty : Result (List Text))
      (answer : Result Text)
      → ((e : Err) → Fetched (failed e))
      → Fetched empty
      → Fetched (elim answer [
        | err e ↦ failed e
        | ok js ↦ elim (parse_modes_from_js w.find_catalog w.find_quoted js) [
          | [] ↦ empty
          | mode ∷ modes ↦ ok (mode ∷ modes)
        ]
      ])
  answered-Fetched w failed empty (err e) f r = f e
  answered-Fetched w failed empty (ok js) f r =
      tried-Fetched _ empty (parse_modes-Holds w.find_catalog w.find_quoted js) r

  first_modes-Fetched :
      (w : Web) (scripts : List Text) (last : Err) → Fetched (first_modes w last scripts)
  unfolding first_modes
  first_modes-Fetched w [] last = tt
  first_modes-Fetched w (script_url ∷ rest) last =
      answered-Fetched w _ _ (get_bytes w script_url)
        (λ e. first_modes-Fetched w rest (wrapped (codes "fetch " ++ script_url) e))
        (first_modes-Fetched w rest (plain (codes "no conversation modes in " ++ script_url)))

  bind-Fetched :
      {A : Type 0} (r : Result A) (f : A → Result (List Text))
      → ((a : A) → Fetched (f a))
      → Fetched (r >>= f)
  bind-Fetched (ok a) f h = h a
  bind-Fetched (err e) f h = tt

  modes_of_scripts-Fetched : (w : Web) (scripts : List Text) → Fetched (modes_of_scripts w scripts)
  unfolding modes_of_scripts
  modes_of_scripts-Fetched w [] = tt
  modes_of_scripts-Fetched w (script ∷ scripts) =
      ground (arith, first_modes-Fetched w (script ∷ scripts) Err.nil)

  fetch_modes-Fetched : (w : Web) (base_url : Text) → Fetched (fetch_modes w base_url)
  unfolding fetch_modes
  fetch_modes-Fetched w base_url =
      bind-Fetched
        (map_err (wrapped (codes "fetch copilot home")) (get_bytes w (base_url ++ codes "/"))) _
        λ home. modes_of_scripts-Fetched w _

-- A list that a client is offered: valid names, "smart" among them.
abbrev pub Offers : List Text → Type 0
Offers modes = All IsMode modes × (elem (codes "smart") modes ≡ true)

smart_offered : Offers (codes "smart" ∷ [])
unfolding elem is_valid_model_id text_eq
smart_offered = ((refl, tt), refl)

Holds-Offers : (mode : Text) (modes : List Text) → Holds (mode ∷ modes) → Offers (mode ∷ modes)
Holds-Offers mode modes h = (h.valid, h.has_smart)

IsCatalog-Holds : (modes : List Text) → IsCatalog modes → Holds modes
IsCatalog-Holds [] h = tt
IsCatalog-Holds (mode ∷ modes) h = h

module _ ⦃u : Unicode⦄ (w : Web) where
  abbrev pub Listing : ModelCatalog × List Text → Type 0
  Listing (c, modes) = Holds c.modes × Offers modes

  finish_refresh-Listing :
      (later : ℕ) (stale : List Text) (r : Result (List Text)) (c : ModelCatalog)
      → Fetched r
      → Holds stale
      → Holds c.modes
      → Listing (finish_refresh w later stale r c)
  unfolding finish_refresh
  finish_refresh-Listing later stale (ok modes) c f s h =
      (IsCatalog-Holds modes f, (f.valid, f.has_smart))
  finish_refresh-Listing later [] (err e) c f s h = (h, smart_offered)
  finish_refresh-Listing later (mode ∷ modes) (err e) c f s h = (h, Holds-Offers mode modes s)

  cached-Listing :
      (c : ModelCatalog) (modes : List Text)
      → c.modes ≡ modes
      → ltb 0 (length modes) ≡ true
      → Holds modes
      → Listing (c, modes)
  cached-Listing c [] e h v = cc
  cached-Listing c (mode ∷ modes) e h v = (rw e v, Holds-Offers mode modes v)

  pub list_modes-Listing :
      (now later : ℕ) (others : ModelCatalog → ModelCatalog) (c : ModelCatalog)
      → ((d : ModelCatalog) → Holds d.modes → Holds (others d).modes)
      → Holds c.modes
      → Listing (list_modes w now later others c)
  unfolding list_modes
  list_modes-Listing now later others c fair h =
      if_cases Listing (ltb 0 (length c.modes) && ltb (now - c.fetched_at) c.ttl) _ _
        (λ cached. cached-Listing c c.modes refl (ground (arith, cached)) h)
        λ stale.
          finish_refresh-Listing later c.modes (fetch_modes w c.base_url) (others c)
            (fetch_modes-Fetched w c.base_url) h (fair c h)
