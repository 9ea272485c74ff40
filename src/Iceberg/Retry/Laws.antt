-- ===== src/Iceberg/Retry/Laws.antt =====
-- What `execute` does, whatever the operation.
use community_integrations.Base.{
  ℕ, zero, suc, ◌+◌, ◌-◌, ◌≤◌, ◌<◌, ◌≡◌, refl, ◌⊎◌, inl, inr, ◌∙◌, Bool, true, Option, none, some,
  arith, if◌then◌else◌, Bool-cases,
}
use community_integrations.Base.Lists.{ltb}
use community_integrations.Iceberg.Retry.{Action, Retrying, IsRetrying, execute, attempt}

module _ {E S : Type 0} (operation refresh : Action E S) (retryable : E → Bool) where
  -- The operation, tried again at most `n` times after a refresh.
  abbrev pub after_refresh : Action E S → Option E × S → Option E × S
  after_refresh next (none, t) = next t
  after_refresh next (some f, t) = if retryable f then next t else (some f, t)

  abbrev pub after_try : Action E S → Option E × S → Option E × S
  after_try next (none, t) = (none, t)
  after_try next (some e, t) = if retryable e then after_refresh next (refresh t) else (some e, t)

  unfoldable pub persist : ℕ → Action E S
  persist zero s = operation s
  persist (suc n) s = after_try (persist n) (operation s)

module _ {E S : Type 0} {R : Retrying E S} (law : IsRetrying R) (retryable : E → Bool) where
  -- One round of the loop, by the outcome of its attempt.
  abbrev decide : ℕ → (ℕ → Action E S) → ℕ → Option E × S → Option E × S
  decide stop body k (none, t) = (none, t)
  decide stop body k (some e, t) =
      if retryable e
      then (if ltb k stop then R.run stop retryable body (k + 1) t else (some e, t))
      else (some e, t)

  run_step :
      (stop : ℕ) (body : ℕ → Action E S) (k : ℕ) (s : S) (o : Option E) (t : S)
      → body k s ≡ (o, t)
      → R.run stop retryable body k s ≡ decide stop body k (o, t)
  run_step stop body k s none t h = law.done stop retryable body k s h
  run_step stop body k s (some e) t h = elim (Bool-cases (retryable e)) [
    | inr no_retry ↦ rw no_retry (law.fatal stop retryable body k s h no_retry)
    | inl retry ↦ rw retry (elim (Bool-cases (ltb k stop)) [
      | inl more ↦ rw more (law.again stop retryable body k s h retry (ground arith))
      | inr over ↦ rw over (law.last stop retryable body k s h (ground arith))
    ])
  ]

module _ {E S : Type 0} {R : Retrying E S} (law : IsRetrying R) (operation refresh : Action E S)
    (retryable : E → Bool) (retries : ℕ) where
  abbrev body : ℕ → Action E S
  body = attempt operation refresh retries retryable

  run-eq-persist :
      (n k : ℕ) (s : S)
      → n ≡ retries - k
      → R.run retries retryable body k s ≡ persist operation refresh retryable n s
  unfolding attempt persist
  run-eq-persist zero k s e =
      run_step law retryable retries body k s (body k s).0 (body k s).1 refl ∙ ground arith
  run-eq-persist (suc n) k s e =
      run_step law retryable retries body k s (body k s).0 (body k s).1 refl
      ∙ ground (
        arith,
        run-eq-persist n (k + 1) (operation s).1 (omega arith),
        run-eq-persist n (k + 1) (refresh (operation s).1).1 (omega arith),
      )

  -- Running with `retries` is the operation, then at most `retries - 1` rounds of a refresh and the
  -- operation again; an exception that is not to be retried ends it, and so does the last one.
  pub execute-eq-persist :
      (s : S)
      → execute operation refresh R retries retryable s
        ≡ persist operation refresh retryable (retries - 1) s
  unfolding execute
  execute-eq-persist s = run-eq-persist (retries - 1) 1 s refl

module _ {E S : Type 0} (operation refresh : Action E S) (retryable : E → Bool) (calls : S → ℕ)
    (called : (s : S) → calls (operation s).1 ≡ calls s + 1)
    (kept : (s : S) → calls (refresh s).1 ≡ calls s) where
  persist_calls :
      (n : ℕ) (s : S)
      → let t = (persist operation refresh retryable n s).1 in
        (calls s + 1 ≤ calls t) × (calls t ≤ calls s + n + 1)
  unfolding persist
  persist_calls zero s = ground (arith, called s)
  persist_calls (suc n) s = ground (
    arith,
    called s,
    kept (operation s).1,
    persist_calls n (operation s).1,
    persist_calls n (refresh (operation s).1).1,
  )

  -- Where the operation is counted and a refresh is not: a run makes at least one attempt, and at
  -- most `retries` of them (one, if `retries` is 0).
  pub execute_calls :
      {R : Retrying E S}
      → IsRetrying R
      → (retries : ℕ) (s : S)
      → let t = (execute operation refresh R retries retryable s).1 in
        (calls s + 1 ≤ calls t) × (calls t ≤ calls s + (retries - 1) + 1)
  execute_calls law retries s =
      rw (execute-eq-persist law operation refresh retryable retries s)
        (persist_calls (retries - 1) s)

module _ {E S : Type 0} (operation refresh : Action E S) (retryable : E → Bool)
    (P : S → Type 0) where
  -- A return without an exception leaves a state of `P`.
  abbrev Post : Option E × S → Type 0
  Post r = r.0 ≡ none → P r.1

  after_try-Post :
      (next : Action E S)
      → ((t : S) → Post (next t))
      → (r : Option E × S) → Post r
      → Post (after_try operation refresh retryable next r)
  after_try-Post next after (none, t) h = h
  after_try-Post next after (some e, t) h = ground (arith, after t, after (refresh t).1)

  persist-Post :
      ((s : S) → Post (operation s))
      → (n : ℕ) (s : S) → Post (persist operation refresh retryable n s)
  unfolding persist
  persist-Post post zero s = post s
  persist-Post post (suc n) s =
      after_try-Post (persist operation refresh retryable n) (persist-Post post n) (operation s)
        (post s)

  -- What every successful call of the operation establishes, a successful run establishes.
  pub execute_post :
      {R : Retrying E S}
      → IsRetrying R
      → (retries : ℕ) (s : S) → ((t : S) → (operation t).0 ≡ none → P (operation t).1)
      → (execute operation refresh R retries retryable s).0 ≡ none
      → P (execute operation refresh R retries retryable s).1
  execute_post law retries s post =
      rw (execute-eq-persist law operation refresh retryable retries s)
        (persist-Post post (retries - 1) s)

module _ {E S : Type 0} (operation refresh : Action E S) (retryable : E → Bool) (P : S → Type 0)
    (keeps : (s : S) → P s → P (operation s).1) (refreshed : (s : S) → P s → P (refresh s).1) where
  persist_inv : (n : ℕ) (s : S) → P s → P (persist operation refresh retryable n s).1
  unfolding persist
  persist_inv zero s h = keeps s h
  persist_inv (suc n) s h =
      let h₁ = keeps s h in
      let h₂ = refreshed (operation s).1 h₁ in
      ground (
        arith,
        h₁,
        h₂,
        persist_inv n (operation s).1 h₁,
        persist_inv n (refresh (operation s).1).1 h₂,
      )

  -- What the operation and the refresh keep, a run keeps, however it ends.
  pub execute_inv :
      {R : Retrying E S}
      → IsRetrying R
      → (retries : ℕ) (s : S) → P s
      → P (execute operation refresh R retries retryable s).1
  execute_inv law retries s h =
      rw (execute-eq-persist law operation refresh retryable retries s)
        (persist_inv (retries - 1) s h)

module _ {E S : Type 0} (operation refresh : Action E S) (retryable : E → Bool) (P : S → Type 0)
    (o : Option E) (outcome : (s : S) → P s → ((operation s).0 ≡ o) × P (operation s).1)
    (refreshed : (s : S) → P s → ((refresh s).0 ≡ none) × P (refresh s).1) where
  persist_outcome : (n : ℕ) (s : S) → P s → (persist operation refresh retryable n s).0 ≡ o
  unfolding persist
  persist_outcome zero s h = (outcome s h).0
  persist_outcome (suc n) s h =
      let h₁ = outcome s h in
      let h₂ = refreshed (operation s).1 h₁.1 in
      ground (arith, h₁, h₂, persist_outcome n (refresh (operation s).1).1 h₂.1)

  -- If every attempt ends alike, then so does the run.
  pub execute_outcome :
      {R : Retrying E S}
      → IsRetrying R
      → (retries : ℕ) (s : S) → P s
      → (execute operation refresh R retries retryable s).0 ≡ o
  execute_outcome law retries s h =
      rw (execute-eq-persist law operation refresh retryable retries s)
        (persist_outcome (retries - 1) s h)

module _ {E S : Type 0} (operation refresh : Action E S) (retryable : E → Bool) (pending : S → ℕ)
    (progress : (s : S)
      → ((operation s).0 ≡ none)
        ⊎ ((e : E) × ((operation s).0 ≡ some e)
            × (retryable e ≡ true)
            × (pending (operation s).1 < pending s)))
    (refreshes : (s : S) → ((refresh s).0 ≡ none) × (pending (refresh s).1 ≤ pending s)) where
  persist_succeeds :
      (n : ℕ) (s : S) → pending s ≤ n → (persist operation refresh retryable n s).0 ≡ none
  unfolding persist
  persist_succeeds zero s h = ground (arith, progress s)
  persist_succeeds (suc n) s h = elim (progress s) [
    | inl fine ↦ ground arith
    | inr (e, raised, again, less) ↦
        ground (arith, refreshes (operation s).1, persist_succeeds n (refresh (operation s).1).1)
  ]

  -- If every failure of the operation is one to retry and uses up a cause of failure, and a refresh
  -- does not fail and adds none, then fewer causes than `retries` mean that the run succeeds.
  pub execute_succeeds :
      {R : Retrying E S}
      → IsRetrying R
      → (retries : ℕ) (s : S) → pending s < retries
      → (execute operation refresh R retries retryable s).0 ≡ none
  execute_succeeds law retries s h =
      rw (execute-eq-persist law operation refresh retryable retries s)
        (persist_succeeds (retries - 1) s (omega arith))
