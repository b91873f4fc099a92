-- ===== src/Account/Kdf/Admission.antt =====
-- The gate in use: requests, ends of closures and a shutdown, in any order.
use rss_identity.Common.{
  err_of, ℕ, zero, suc, ◌+◌, ◌≤◌, ◌<◌, ◌≡◌, refl, ◌↔◌, inl, inr, true, false, not, none, some,
  arith, leb, if◌then◌else◌, Option-cases, ok, err,
}
use rss_identity.Account.Kdf.{
  busy, unavailable, Semaphore, Tracker, max_concurrency, Kdf, new, close, admit, finish, drained,
}

module _ (sem : Semaphore) (tracker : Tracker) where
  -- A step of the program. A closure can end only while one runs.
  pub data Step (k : Kdf sem tracker) : Kdf sem tracker → Type 0 where
    admitted : {n : Kdf sem tracker} → admit sem tracker k ≡ ok n → Step k n
    finished : 0 < k.running → Step k (finish sem tracker k)
    closes : Step k (close sem tracker k)

  pub data Reach : Kdf sem tracker → Type 0 where
    start : Reach (new sem tracker)
    next : {k n : Kdf sem tracker} → Reach k → Step k n → Reach n

  -- Permits and tokens account for exactly the closures that run.
  pub record Inv (k : Kdf sem tracker) : Type 0 where
    pub permits : sem.available k.gate + k.running ≡ max_concurrency
    pub tokens : tracker.tokens k.tasks ≡ k.running
    pub closed : tracker.is_closed k.tasks ≡ not k.admission

  new-Inv : Inv (new sem tracker)
  unfolding new
  new-Inv = record {
    permits = omega (arith, sem.available-with_permits 4);
    tokens = tracker.tokens-new;
    closed = tracker.is_closed-new;
  }

  admit-Inv : (k n : Kdf sem tracker) → Inv k → admit sem tracker k ≡ ok n → Inv n
  unfolding admit
  admit-Inv k n v h = elim (Option-cases (sem.try_acquire k.gate)) [
    | inl e ↦ absurd (ground (arith, e, h))
    | inr (g, e) ↦ ground (
      arith,
      e,
      sem.try_acquire-some k.gate g,
      tracker.tokens-token k.tasks,
      tracker.is_closed-token k.tasks,
    )
  ]

  finish-Inv : (k : Kdf sem tracker) → Inv k → 0 < k.running → Inv (finish sem tracker k)
  unfolding finish
  finish-Inv k v h = ground (
    arith,
    sem.available-release k.gate,
    tracker.tokens-drop k.tasks,
    tracker.is_closed-drop k.tasks,
  )

  close-Inv : (k : Kdf sem tracker) → Inv k → Inv (close sem tracker k)
  unfolding close
  close-Inv k v = ground (arith, tracker.tokens-close k.tasks, tracker.is_closed-close k.tasks)

  Step-Inv : {k n : Kdf sem tracker} → Step k n → Inv k → Inv n
  Step-Inv {k} {n} (admitted h) v = admit-Inv k n v h
  Step-Inv {k} (finished h) v = finish-Inv k v h
  Step-Inv {k} closes v = close-Inv k v

  pub Reach-Inv : {k : Kdf sem tracker} → Reach k → Inv k
  Reach-Inv start = new-Inv
  Reach-Inv (next r s) = Step-Inv s (Reach-Inv r)

  -- In every reachable state at most four computations run.
  running-le-max_concurrency : {k : Kdf sem tracker} → Reach k → k.running ≤ max_concurrency
  running-le-max_concurrency {k} r = let v = Reach-Inv r in omega (arith, v.permits)

  -- What a request gets in a reachable state depends on the shutdown flag and the number of running
  -- computations alone: unavailable after a shutdown, else busy while four run, else admission.
  pub err_of-admit :
      (k : Kdf sem tracker)
      → Reach k
      → err_of (admit sem tracker k) ≡ (
          if not k.admission
          then some unavailable
          else if leb max_concurrency k.running
          then some busy
          else none)
  unfolding admit
  err_of-admit k r = elim (Option-cases (sem.try_acquire k.gate)) [
    | inl e ↦ ground (arith, e, sem.try_acquire-none k.gate e, (Reach-Inv r).permits)
    | inr (g, e) ↦ ground (arith, e, sem.try_acquire-some k.gate g e, (Reach-Inv r).permits)
  ]

  -- Steps that follow a given state.
  pub data Later (k : Kdf sem tracker) : Kdf sem tracker → Type 0 where
    here : Later k k
    then_step : {m n : Kdf sem tracker} → Later k m → Step m n → Later k n

  Step-closed :
      {m n : Kdf sem tracker}
      → Step m n
      → m.admission ≡ false
      → (n.admission ≡ false) × (n.running ≤ m.running)
  unfolding admit finish close
  Step-closed {m} {n} (admitted h) c = absurd (ground (arith, h))
  Step-closed (finished h) c = (c, omega arith)
  Step-closed closes c = (refl, omega arith)

  Later-admission : {k n : Kdf sem tracker} → k.admission ≡ false → Later k n → n.admission ≡ false
  Later-admission c here = c
  Later-admission c (then_step l s) = (Step-closed s (Later-admission c l)).0

  -- A shutdown is permanent: nothing is admitted in any later state, and the number of running
  -- computations never grows again.
  pub Later-closed :
      {k n : Kdf sem tracker}
      → k.admission ≡ false
      → Later k n
      → (admit sem tracker n ≡ err unavailable) × (n.running ≤ k.running)
  unfolding admit
  Later-closed {k} c here = (ground arith, omega arith)
  Later-closed {k} {n} c (then_step {m} l s) =
      let (closed, le) = Step-closed s (Later-admission c l) in
      (ground (arith, closed), omega (arith, le, (Later-closed c l).1))

  -- All running closures end.
  pub finish_all : ℕ → Kdf sem tracker → Kdf sem tracker
  finish_all zero k = k
  finish_all (suc i) k = finish_all i (finish sem tracker k)

  -- `wait_closed` returns exactly when a shutdown was asked for and nothing runs any more.
  pub drained_iff :
      (k : Kdf sem tracker)
      → Reach k
      → (drained sem tracker k ≡ true) ↔ ((k.admission ≡ false) × (k.running ≡ 0))
  unfolding drained
  drained_iff k r =
      let v = Reach-Inv r in
      ((λ h. ground (arith, v.closed, v.tokens)), (λ h. ground (arith, v.closed, v.tokens)))

  finish_all-Reach :
      (i : ℕ) (k : Kdf sem tracker)
      → Reach k
      → k.admission ≡ false
      → k.running ≡ i
      → Reach (finish_all i k)
        × ((finish_all i k).admission ≡ false)
        × ((finish_all i k).running ≡ 0)
  unfolding finish_all finish
  finish_all-Reach zero k r c e = (r, c, e)
  finish_all-Reach (suc i) k r c e =
      finish_all-Reach i _ (next r (finished (omega arith))) c (omega arith)

  -- After a shutdown the wait is not for ever: once the computations that run have ended, however
  -- many there are, it returns.
  pub finish_all-drained :
      (k : Kdf sem tracker)
      → Reach k
      → k.admission ≡ false
      → drained sem tracker (finish_all k.running k) ≡ true
  finish_all-drained k r c =
      let (last, closed, idle) = finish_all-Reach k.running k r c refl in
      (drained_iff _ last).1 (closed, idle)
