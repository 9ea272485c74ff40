-- ===== src/Iceberg/Retry/Hoare.antt =====
-- What a run with retries makes true, from what is kept between its attempts.
use community_integrations.Base.{
  ℕ, zero, suc, ◌-◌, ◌≡◌, Bool, Option, none, some, Bool-cases, inl, inr,
}
use community_integrations.Base.Action.Hoare.{Ensures}
use community_integrations.Iceberg.Retry.{Action, Retrying, IsRetrying, execute}
use community_integrations.Iceberg.Retry.Laws.{
  persist, execute-eq-persist, after_try, after_refresh,
}

module _ {E S : Type 0} (operation refresh : Action E S) (retryable : E → Bool)
    (I Q : S → Type 0) where
  -- An attempt that fails keeps `I`, and one that does not establishes `Q`.
  abbrev pub Attempt : Option E × S → Type 0
  Attempt (none, t) = Q t
  Attempt (some e, t) = I t

  abbrev Done : Option E × S → Type 0
  Done r = r.0 ≡ none → Q r.1

  after_refresh-Done :
      (next : Action E S)
      → ((s : S) → I s → Done (next s))
      → (e : E) (r : Option E × S) → I r.1
      → Done (after_refresh operation refresh retryable next r)
  after_refresh-Done next later e (none, t) kept = later t kept
  after_refresh-Done next later e (some f, t) kept = elim (Bool-cases (retryable f)) [
    | inl again ↦ rw again (later t kept)
    | inr fatal ↦ rw fatal (λ h. cc)
  ]

  after_try-Done :
      (next : Action E S)
      → ((s : S) → I s → Done (next s))
      → ((s : S) → I s → I (refresh s).1)
      → (r : Option E × S) → Attempt r
      → Done (after_try operation refresh retryable next r)
  after_try-Done next later kept (none, t) made h = made
  after_try-Done next later kept (some e, t) made h = go h
    where
      go : Done (after_try operation refresh retryable next (some e, t))
      go = elim (Bool-cases (retryable e)) [
        | inl again ↦ rw again (after_refresh-Done next later e (refresh t) (kept t made))
        | inr fatal ↦ rw fatal (λ h. cc)
      ]

  persist-Done :
      ((s : S) → I s → Attempt (operation s))
      → ((s : S) → I s → I (refresh s).1)
      → (n : ℕ) (s : S) → I s
      → Done (persist operation refresh retryable n s)
  unfolding persist
  persist-Done tries kept zero s h = go (operation s) (tries s h)
    where
      go : (r : Option E × S) → Attempt r → Done r
      go (none, t) made h = made
      go (some e, t) made h = cc
  persist-Done tries kept (suc n) s h =
      after_try-Done (persist operation refresh retryable n) (persist-Done tries kept n) kept
        (operation s) (tries s h)

  pub execute-Ensures :
      {R : Retrying E S}
      → IsRetrying R
      → (retries : ℕ) → ((s : S) → I s → Attempt (operation s))
      → ((s : S) → I s → I (refresh s).1)
      → Ensures I (execute operation refresh R retries retryable) Q
  execute-Ensures law retries tries kept s h =
      rw (execute-eq-persist law operation refresh retryable retries s)
        (persist-Done tries kept (retries - 1) s h)
