-- ===== src/Account/Kdf.antt =====
-- crates/identity-core/src/account.rs: `PasswordKdf`, the gate before password computation.
pub mod Admission
pub mod Encoding
use rss_identity.Common.{
  ℕ, ◌+◌, ◌-◌, ◌≡◌, Bool, true, false, not, ◌&&◌, Option, none, some, ◌==◌, if◌then◌else◌, Result,
  ok, err,
}

pub data PasswordError : Type 0 where
  invalid busy unavailable : PasswordError

-- tokio's `Semaphore`: only its permits are used, and it is never closed.
pub record Semaphore : Type 1 where
  pub State : Type 0
  pub with_permits : ℕ → State
  pub try_acquire : State → Option State
  pub release : State → State
  pub available : State → ℕ
  pub available-with_permits : (n : ℕ) → available (with_permits n) ≡ n
  pub try_acquire-none : (s : State) → try_acquire s ≡ none → available s ≡ 0
  pub try_acquire-some : (s t : State) → try_acquire s ≡ some t → available s ≡ available t + 1
  pub available-release : (s : State) → available (release s) ≡ available s + 1

-- tokio-util's `TaskTracker`: `wait` completes once it is closed and no token is left.
pub record Tracker : Type 1 where
  pub State : Type 0
  pub new : State
  pub token : State → State
  pub drop_token : State → State
  pub close : State → State
  pub tokens : State → ℕ
  pub is_closed : State → Bool
  pub tokens-new : tokens new ≡ 0
  pub is_closed-new : is_closed new ≡ false
  pub tokens-token : (s : State) → tokens (token s) ≡ tokens s + 1
  pub is_closed-token : (s : State) → is_closed (token s) ≡ is_closed s
  pub tokens-drop : (s : State) → tokens (drop_token s) ≡ tokens s - 1
  pub is_closed-drop : (s : State) → is_closed (drop_token s) ≡ is_closed s
  pub tokens-close : (s : State) → tokens (close s) ≡ tokens s
  pub is_closed-close : (s : State) → is_closed (close s) ≡ true

abbrev pub max_concurrency : ℕ
max_concurrency = 4

module _ (sem : Semaphore) (tracker : Tracker) where
  -- `PasswordKdf`, shared by its clones, and the number of closures that now run.
  pub record Kdf : Type 0 where
    pub gate : Semaphore.State sem
    pub admission : Bool
    pub tasks : Tracker.State tracker
    pub running : ℕ

  unfoldable pub new : Kdf
  new = record {
    gate = sem.with_permits max_concurrency;
    admission = true;
    tasks = tracker.new;
    running = 0;
  }

  -- `close`
  unfoldable pub close : Kdf → Kdf
  close k = record k { admission = false; tasks = tracker.close k.tasks }

  -- The locked block of `compute`: the closure that is spawned takes a permit and a token with it.
  unfoldable pub admit : Kdf → Result Kdf PasswordError
  admit k = if not k.admission then err unavailable else elim (sem.try_acquire k.gate) [
    | none ↦ err busy
    | some gate ↦
        ok (record k { gate = gate; tasks = tracker.token k.tasks; running = k.running + 1 })
  ]

  -- The end of one closure, whether it returned or panicked: its permit and token are dropped.
  unfoldable pub finish : Kdf → Kdf
  finish k = record k {
    gate = sem.release k.gate;
    tasks = tracker.drop_token k.tasks;
    running = k.running - 1;
  }

  -- `wait_closed` returns in this state
  unfoldable pub drained : Kdf → Bool
  drained k = tracker.is_closed k.tasks && (tracker.tokens k.tasks == 0)

-- What the caller of an admitted `compute` gets: `none` is a closure that panicked.
unfoldable pub joined {ℓ} : {T : Type ℓ} → Option (Result T PasswordError) → Result T PasswordError
joined none = err unavailable
joined (some r) = r
