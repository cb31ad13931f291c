-- ===== src/SessionManager/Semaphore.antt =====
-- What the registry relies on of golang.org/x/sync/semaphore: its documented behaviour, as an
-- interface. A failed call leaves the semaphore as it was; a grant never passes the weight.
use copilot_openai_proxy.Base.{
  ℕ, ◌+◌, ◌-◌, ◌≤◌, ◌≡◌, refl, Option, none, some, arith, leb, if◌then◌else◌,
}

pub record Semaphore : Type 1 where
  pub Weighted : Type 0
  -- semaphore.NewWeighted
  pub new_weighted : ℕ → Weighted
  -- `TryAcquire(n)`, `none` for false; a blocked `Acquire(ctx, n)` is granted by it too
  pub try_acquire : ℕ → Weighted → Option Weighted
  -- `Release(n)`
  pub release_weight : ℕ → Weighted → Weighted
  -- the weight, and how much of it is handed out
  pub weight : Weighted → ℕ
  pub held : Weighted → ℕ
  pub weight-new : (n : ℕ) → weight (new_weighted n) ≡ n
  pub held-new : (n : ℕ) → held (new_weighted n) ≡ 0
  pub weight-acquire : (n : ℕ) (c d : Weighted) → try_acquire n c ≡ some d → weight d ≡ weight c
  pub held-acquire : (n : ℕ) (c d : Weighted) → try_acquire n c ≡ some d → held d ≡ n + held c
  pub acquire_fits : (n : ℕ) (c d : Weighted) → try_acquire n c ≡ some d → n + held c ≤ weight c
  pub weight-release : (n : ℕ) (c : Weighted) → n ≤ held c → weight (release_weight n c) ≡ weight c
  pub held-release : (n : ℕ) (c : Weighted) → n ≤ held c → held (release_weight n c) ≡ held c - n

-- A counter with a bound behaves as documented.
pub record Counter : Type 0 where
  pub bound : ℕ
  pub taken : ℕ

abbrev pub take_units : ℕ → Counter → Option Counter
take_units n c = if leb (n + c.taken) c.bound then some (record c { taken = n + c.taken }) else none

pub take_units_bound : (n : ℕ) (c d : Counter) → take_units n c ≡ some d → d.bound ≡ c.bound
take_units_bound n c d e = ground arith

pub take_units_taken : (n : ℕ) (c d : Counter) → take_units n c ≡ some d → d.taken ≡ n + c.taken
take_units_taken n c d e = ground arith

pub take_units_fits : (n : ℕ) (c d : Counter) → take_units n c ≡ some d → n + c.taken ≤ c.bound
take_units_fits n c d e = ground arith

abbrev pub counting : Semaphore
counting = record {
  Weighted = Counter;
  new_weighted = λ n. record { bound = n; taken = 0 };
  try_acquire = take_units;
  release_weight = λ n c. record c { taken = c.taken - n };
  weight = λ c. c.bound;
  held = λ c. c.taken;
  weight-new = λ n. refl;
  held-new = λ n. refl;
  weight-acquire = take_units_bound;
  held-acquire = take_units_taken;
  acquire_fits = take_units_fits;
  weight-release = λ n c h. refl;
  held-release = λ n c h. refl;
}
