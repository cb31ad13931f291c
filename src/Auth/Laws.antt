-- ===== src/Auth/Laws.antt =====
-- Exactly which requests the middleware of internal/server/middleware.go lets through.
use copilot_openai_proxy.Base.{
  ℕ, ◌≡◌, refl, ap, ◌∙◌, inl, inr, ◌⊎◌, ◌↔◌, Bool, true, false, not, ◌||◌, Option, none, some, [],
  ◌∷◌, ◌++◌, any, ◌==◌, ==_iff, arith, Bool-cases, if◌then◌else◌, if_cases,
}
use copilot_openai_proxy.Base.Text.{Text, codes, text_eq, text_eq_iff}
use copilot_openai_proxy.Base.Unicode.{Unicode, equal_fold}
use copilot_openai_proxy.Errors.{is_empty}
use copilot_openai_proxy.Auth.{
  Served, next_serves, unauthorized, split_blank, check_parts, auth_middleware, new_handler,
}

abbrev pub has_blank : Text → Bool
has_blank = any (λ c. c == b' ')

-- What a result of split_blank says of the text.
abbrev Splits : Text → Option (Text × Text) → Type 0
Splits s none = has_blank s ≡ false
Splits s (some (before, after)) = (s ≡ before ++ b' ' ∷ after) × (has_blank before ≡ false)

split_blank-Splits : (s : Text) → Splits s (split_blank s)
unfolding split_blank
split_blank-Splits [] = refl
split_blank-Splits (c ∷ s) =
    if_cases (Splits (c ∷ s)) (c == b' ') _ _
      (λ blank. (ap (λ (d : ℕ). d ∷ s) ((==_iff c b' ').0 blank), refl))
      λ other. longer (split_blank s) other (split_blank-Splits s)
  where
    longer :
        (r : Option (Text × Text))
        → (c == b' ') ≡ false
        → Splits s r
        → Splits (c ∷ s) (elim r [ none ↦ none | some (before, after) ↦ some (c ∷ before, after) ])
    longer none other h = ground (arith, other, h)
    longer (some (before, after)) other h =
        (ap (λ (t : Text). c ∷ t) h.0, ground (arith, other, h.1))

split_blank_built :
    (before after : Text)
    → has_blank before ≡ false
    → split_blank (before ++ b' ' ∷ after) ≡ some (before, after)
unfolding split_blank
split_blank_built [] after h = refl
split_blank_built (c ∷ before) after h = ground (arith, split_blank_built before after)

module _ ⦃u : Unicode⦄ where
  -- The header names the scheme, in any case, and then the key.
  pub record Presents (api_key auth_header : Text) : Type 0 where
    pub scheme : Text
    pub header_is : auth_header ≡ scheme ++ b' ' ∷ api_key
    pub one_word : has_blank scheme ≡ false
    pub is_bearer : equal_fold scheme (codes "bearer") ≡ true

  guard_passed :
      (b : Bool) (r : Served)
      → (if b then unauthorized else r) ≡ next_serves
      → (b ≡ false) × (r ≡ next_serves)
  guard_passed true r e = cc
  guard_passed false r e = (refl, e)

  check_parts-Presents :
      (api_key auth_header : Text) (r : Option (Text × Text))
      → Splits auth_header r
      → check_parts api_key r ≡ next_serves
      → Presents api_key auth_header
  unfolding check_parts
  check_parts-Presents api_key auth_header none s e = cc
  check_parts-Presents api_key auth_header (some (scheme, key)) s e =
      let passed =
        (guard_passed (not (equal_fold scheme (codes "bearer")) || not (text_eq key api_key))
          next_serves e).0 in
      let same : key ≡ api_key = (text_eq_iff key api_key).0 (ground (arith, passed)) in
      record {
        scheme = scheme;
        header_is = s.0 ∙ ap (λ (k : Text). scheme ++ b' ' ∷ k) same;
        one_word = s.1;
        is_bearer = ground (arith, passed);
      }

  Presents-passes :
      (api_key auth_header : Text)
      → Presents api_key auth_header
      → check_parts api_key (split_blank auth_header) ≡ next_serves
  unfolding check_parts
  Presents-passes api_key auth_header h = rw (
    h.header_is,
    split_blank_built h.scheme api_key h.one_word,
    h.is_bearer,
    (text_eq_iff api_key api_key).1 refl,
  )

  Presents-filled :
      (api_key auth_header : Text) → Presents api_key auth_header → is_empty auth_header ≡ false
  Presents-filled api_key auth_header h = rw h.header_is (filled h.scheme)
    where
      filled : (scheme : Text) → is_empty (scheme ++ b' ' ∷ api_key) ≡ false
      filled [] = refl
      filled (c ∷ s) = refl

  is_empty_nil : (s : Text) → is_empty s ≡ true → s ≡ []
  is_empty_nil [] e = refl
  is_empty_nil (c ∷ s) e = cc

  auth_middleware-passes :
      (api_key path auth_header : Text)
      → auth_middleware api_key path auth_header ≡ next_serves
      → (path ≡ codes "/healthz") ⊎ Presents api_key auth_header
  unfolding auth_middleware
  auth_middleware-passes api_key path auth_header e =
      elim (Bool-cases (text_eq path (codes "/healthz"))) [
        | inl health ↦ inl ((text_eq_iff path (codes "/healthz")).0 health)
        | inr other ↦
            let asked : (if is_empty auth_header
                  then unauthorized
                  else check_parts api_key (split_blank auth_header))
                ≡ next_serves =
              ground (arith, e, other) in
            inr (
              check_parts-Presents api_key auth_header (split_blank auth_header)
                (split_blank-Splits auth_header) (guard_passed (is_empty auth_header) _ asked).1)
      ]

  -- A request reaches the routes exactly when no API key is set, when it asks for the health check, or
  -- when its Authorization header is one word that reads "bearer" in any case, one blank, and the key.
  pub new_handler-passes :
      (api_key path auth_header : Text)
      → (new_handler api_key path auth_header ≡ next_serves)
        ↔ ((api_key ≡ []) ⊎ ((path ≡ codes "/healthz") ⊎ Presents api_key auth_header))
  unfolding new_handler
  new_handler-passes api_key path auth_header = (forth, back)
    where
      forth :
          new_handler api_key path auth_header ≡ next_serves
          → (api_key ≡ []) ⊎ ((path ≡ codes "/healthz") ⊎ Presents api_key auth_header)
      forth e = elim (Bool-cases (is_empty api_key)) [
        | inl keyless ↦ inl (is_empty_nil api_key keyless)
        | inr keyed ↦
            inr (auth_middleware-passes api_key path auth_header (ground (arith, e, keyed)))
      ]

      back :
          (api_key ≡ []) ⊎ ((path ≡ codes "/healthz") ⊎ Presents api_key auth_header)
          → new_handler api_key path auth_header ≡ next_serves
      back (inl keyless) = rw keyless
      back (inr (inl health)) =
          unfold auth_middleware in ground (arith, (text_eq_iff path (codes "/healthz")).1 health)
      back (inr (inr h)) =
          unfold auth_middleware in
          ground
            (arith, Presents-filled api_key auth_header h, Presents-passes api_key auth_header h)
