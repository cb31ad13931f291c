-- ===== src/ClientConfig/Laws.antt =====
-- What normalized of internal/copilot/client_config.go guarantees, and that the session manager's own
-- clamps do not change a normalised configuration.
use copilot_openai_proxy.Base.{
  ltb, ltb-false, zero, suc, ℕ, ◌≤◌, ◌≡◌, refl, false, inl, inr, Bool-cases, arith, ◌∷◌, [], ◌++◌,
  if_cases,
}
use copilot_openai_proxy.Base.Int.{ℤ, pos, negsuc}
use copilot_openai_proxy.Base.Text.{Text, codes}
use copilot_openai_proxy.Errors.{is_empty}
use copilot_openai_proxy.SessionManager.State.{at_least_one, clamp_warm}
use copilot_openai_proxy.ClientConfig.{
  ClientConfig, positive_sessions, bounded_warm, or_default, attachments_url_from_start, normalized,
  default_copilot_start_url, default_copilot_ws_url, default_copilot_attachments_url,
  default_time_zone, has_suffix, trim_suffix,
}

or_default-filled :
    (s fallback : Text) → is_empty fallback ≡ false → is_empty (or_default s fallback) ≡ false
unfolding or_default
or_default-filled [] fallback h = h
or_default-filled (c ∷ s) fallback h = refl

or_default-fixed : (s fallback : Text) → is_empty s ≡ false → or_default s fallback ≡ s
unfolding or_default
or_default-fixed s fallback h = rw h

append-filled : (s t : Text) → is_empty t ≡ false → is_empty (s ++ t) ≡ false
append-filled [] t h = h
append-filled (c ∷ s) t h = refl

attachments_filled : (start_url : Text) → is_empty (attachments_url_from_start start_url) ≡ false
unfolding attachments_url_from_start
attachments_filled start_url =
    if_cases (λ url. is_empty url ≡ false) (has_suffix start_url (codes "/c/api/start"))
      (trim_suffix start_url (codes "/start") ++ codes "/attachments")
      default_copilot_attachments_url
      (λ _. append-filled (trim_suffix start_url (codes "/start")) (codes "/attachments") refl)
      (λ _. refl)

positive_sessions-fits : (m : ℤ) → (k : ℕ) × (positive_sessions m ≡ pos k) × (1 ≤ k)
unfolding positive_sessions
positive_sessions-fits (pos zero) = (1, refl, omega arith)
positive_sessions-fits (pos (suc k)) = (suc k, ground arith, omega arith)
positive_sessions-fits (negsuc k) = (1, ground arith, omega arith)

positive_sessions-fixed : (k : ℕ) → 1 ≤ k → positive_sessions (pos k) ≡ pos k
unfolding positive_sessions
positive_sessions-fixed k h = ground arith

bounded_warm-fits : (k : ℕ) (w : ℤ) → (j : ℕ) × (bounded_warm (pos k) w ≡ pos j) × (j ≤ k)
unfolding bounded_warm
bounded_warm-fits k (pos n) = elim (Bool-cases (ltb k n)) [
  | inl above ↦ (k, ground (arith, above), omega arith)
  | inr fits ↦ (n, ground (arith, fits), ltb-false k n fits)
]
bounded_warm-fits k (negsuc n) = (0, ground arith, omega arith)

bounded_warm-fixed : (k j : ℕ) → j ≤ k → bounded_warm (pos k) (pos j) ≡ pos j
unfolding bounded_warm
bounded_warm-fixed k j h = ground arith

-- A normalised configuration, with the natural numbers of its sessions.
pub record IsNormal (cfg : ClientConfig) (max warm : ℕ) : Type 0 where
  pub max_is : cfg.max_sessions ≡ pos max
  pub warm_is : cfg.warm_sessions ≡ pos warm
  pub some_session : 1 ≤ max
  pub warm_fits : warm ≤ max
  pub named_zone : is_empty cfg.time_zone ≡ false
  pub named_start : is_empty cfg.start_url ≡ false
  pub named_ws : is_empty cfg.ws_url ≡ false
  pub named_attachments : is_empty cfg.attachments_url ≡ false

normal_unchanged :
    (cfg : ClientConfig) (max warm : ℕ) → IsNormal cfg max warm → normalized cfg ≡ cfg
unfolding normalized
normal_unchanged cfg max warm n = rw (
  n.max_is,
  n.warm_is,
  positive_sessions-fixed max n.some_session,
  bounded_warm-fixed max warm n.warm_fits,
  or_default-fixed cfg.time_zone default_time_zone n.named_zone,
  or_default-fixed cfg.start_url default_copilot_start_url n.named_start,
  or_default-fixed cfg.ws_url default_copilot_ws_url n.named_ws,
  or_default-fixed cfg.attachments_url (attachments_url_from_start cfg.start_url)
      n.named_attachments,
)

normalized-IsNormal :
    (cfg : ClientConfig) → (max : ℕ) × (warm : ℕ) × IsNormal (normalized cfg) max warm
unfolding normalized
normalized-IsNormal cfg =
    let (max, is_max, some_session) = positive_sessions-fits cfg.max_sessions in
    let (warm, is_warm, fits) = bounded_warm-fits max cfg.warm_sessions in
    (
      max,
      warm,
      record {
        max_is = is_max;
        warm_is = rw is_max is_warm;
        some_session = some_session;
        warm_fits = fits;
        named_zone = or_default-filled cfg.time_zone default_time_zone refl;
        named_start = or_default-filled cfg.start_url default_copilot_start_url refl;
        named_ws = or_default-filled cfg.ws_url default_copilot_ws_url refl;
        named_attachments =
            or_default-filled cfg.attachments_url _
              (attachments_filled (or_default cfg.start_url default_copilot_start_url));
      },
    )

session_bounds_kept :
    (cfg : ClientConfig) (max warm : ℕ)
    → IsNormal cfg max warm
    → (at_least_one cfg.max_sessions ≡ max) × (clamp_warm cfg.warm_sessions max ≡ warm)
unfolding at_least_one clamp_warm
session_bounds_kept cfg max warm n =
    (rw n.max_is (ground (arith, n.some_session)), rw n.warm_is (ground (arith, n.warm_fits)))

-- A normalised configuration has at least one session, a warm pool of at most as many, and no empty
-- time zone or address; to normalise it again changes nothing, and neither does the session manager,
-- which clamps both numbers anew.
pub normalized_config :
    (cfg : ClientConfig)
    → (max : ℕ) × (warm : ℕ) × IsNormal (normalized cfg) max warm
      × (normalized (normalized cfg) ≡ normalized cfg)
      × (at_least_one (normalized cfg).max_sessions ≡ max)
      × (clamp_warm (normalized cfg).warm_sessions max ≡ warm)
normalized_config cfg =
    let (max, warm, n) = normalized-IsNormal cfg in
    let (same_max, same_warm) = session_bounds_kept (normalized cfg) max warm n in
    (max, warm, n, normal_unchanged (normalized cfg) max warm n, same_max, same_warm)
