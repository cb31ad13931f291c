-- ===== src/SessionManager/Invariant/WarmingIds.antt =====
-- newWarmingID of session_manager.go gives different keys to different reservations.
use copilot_openai_proxy.Base.{ℕ, ◌≡◌, ◌≢◌, false, inl, inr, Bool-cases, ◌∷◌, ap}
use copilot_openai_proxy.Base.Text.{Text, text_eq, text_eq_iff}
use copilot_openai_proxy.Base.Decimal.{decimal-injective}
use copilot_openai_proxy.SessionManager.State.{new_warming_id}

drop_prefix : Text → Text
drop_prefix (w ∷ a ∷ r ∷ m ∷ i ∷ n ∷ g ∷ colon ∷ rest) = rest
drop_prefix s = s

pub new_warming_id-injective : (m n : ℕ) → new_warming_id m ≡ new_warming_id n → m ≡ n
unfolding new_warming_id drop_prefix
new_warming_id-injective m n e = decimal-injective m n (ap drop_prefix e)

pub new_warming_id-ne : (m n : ℕ) → m ≢ n → text_eq (new_warming_id m) (new_warming_id n) ≡ false
new_warming_id-ne m n h = elim (Bool-cases (text_eq (new_warming_id m) (new_warming_id n))) [
  | inl same ↦ absurd (h (new_warming_id-injective m n ((text_eq_iff _ _).0 same)))
  | inr other ↦ other
]
