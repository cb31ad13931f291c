-- ===== src/SessionManager/Invariant.antt =====
-- What holds of the manager's state whenever its lock is free.
pub mod WarmingIds
pub mod Steps
pub mod Registry
pub mod Acquire
pub mod Leasing
pub mod Sweeps
pub mod Shutdown
pub mod Refill
use copilot_openai_proxy.Base.{ℕ, ◌+◌, ◌≤◌, ◌<◌, ◌≡◌, Bool, true, false, Option, none, some}
use copilot_openai_proxy.Base.Text.{Text, text_eq}
use copilot_openai_proxy.Session.{SessionState}
use copilot_openai_proxy.SessionManager.Table.{get, has, size, count, Unique, Every}
use copilot_openai_proxy.SessionManager.Semaphore.{Semaphore}
use copilot_openai_proxy.SessionManager.State.{
  Status, warming, idle, leased, draining, closed, ManagedSession, Manager, new_warming_id,
}
use copilot_openai_proxy.SessionManager.Warm.{is_pooled}
use copilot_openai_proxy.Base.Distinct.{elem, Distinct}

-- The session is there and is the one that the key names.
abbrev pub Names : Text → Option SessionState → Type 0
Names id none = ⊥
Names id (some session) = session.conversation_id ≡ id

-- A session that is being started is not there yet, an idle one is pooled, a leased one is not, and
-- one that drains or is closed is not in the registry.
abbrev pub StatusFits : Text → Option SessionState → Bool → Status → Type 0
StatusFits id session pooled warming = session ≡ none
StatusFits id session pooled idle = Names id session × (pooled ≡ true)
StatusFits id session pooled leased = Names id session × (pooled ≡ false)
StatusFits id session pooled draining = ⊥
StatusFits id session pooled closed = ⊥

abbrev pub EntryFits : Text → ManagedSession → Type 0
EntryFits id entry =
    (entry.holds_capacity ≡ true) × StatusFits id entry.session entry.pooled entry.status

-- The key is no warming ID.
abbrev pub NotWarmingId : Text → Type 0
NotWarmingId id = (n : ℕ) → text_eq id (new_warming_id n) ≡ false

-- `outside` counts the units of capacity that goroutines hold and that no entry accounts for.
pub record WellFormed {S : Semaphore} (outside : ℕ) (m : Manager S) : Type 0 where
  pub unique : Unique m.sessions
  pub entries : Every EntryFits m.sessions
  pub distinct : Distinct m.by_age
  pub aligned : (id : Text) → elem id m.by_age ≡ has id m.sessions
  pub accounted : S.held m.capacity ≡ size m.sessions + outside
  pub weighted : S.weight m.capacity ≡ m.max_sessions
  pub within : S.held m.capacity ≤ m.max_sessions
  pub warm_bound : count is_pooled m.sessions ≤ m.warm_sessions
  pub unused : (n : ℕ) → m.warming_seq < n → get (new_warming_id n) m.sessions ≡ none
