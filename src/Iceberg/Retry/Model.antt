-- ===== src/Iceberg/Retry/Model.antt =====
-- A `Retrying` that meets what is assumed of tenacity's: the assumptions can hold.
use community_integrations.Base.{
  ℕ, zero, suc, ◌+◌, ◌-◌, ◌≡◌, Bool, true, false, Option, none, some, arith, if◌then◌else◌,
}
use community_integrations.Iceberg.Retry.{Action, Retrying, IsRetrying}

module _ {E S : Type 0} (retryable : E → Bool) (attempt : ℕ → Action E S) where
  abbrev go_on : Action E S → Option E × S → Option E × S
  go_on next (none, t) = (none, t)
  go_on next (some e, t) = if retryable e then next t else (some e, t)

  -- `n` attempts are left after this one.
  loop : ℕ → ℕ → Action E S
  loop zero k s = attempt k s
  loop (suc n) k s = go_on (loop n (k + 1)) (attempt k s)

module _ {E S : Type 0} where
  unfoldable pub counted : Retrying E S
  unfolding loop
  counted = record { run = λ stop retryable attempt k s. loop retryable attempt (stop - k) k s }

  loop-done :
      (n : ℕ) (retryable : E → Bool) (attempt : ℕ → Action E S) (k : ℕ) (s : S) {t : S}
      → attempt k s ≡ (none, t)
      → loop retryable attempt n k s ≡ (none, t)
  unfolding loop
  loop-done zero retryable attempt k s h = h
  loop-done (suc n) retryable attempt k s h = rw h

  loop-fatal :
      (n : ℕ) (retryable : E → Bool) (attempt : ℕ → Action E S) (k : ℕ) (s : S) {e : E} {t : S}
      → attempt k s ≡ (some e, t)
      → retryable e ≡ false
      → loop retryable attempt n k s ≡ (some e, t)
  unfolding loop
  loop-fatal zero retryable attempt k s h r = h
  loop-fatal (suc n) retryable attempt k s h r = rw h (rw r)

  loop-again :
      (n m : ℕ) (retryable : E → Bool) (attempt : ℕ → Action E S) (k : ℕ) (s : S) {e : E} {t : S}
      → n ≡ suc m
      → attempt k s ≡ (some e, t)
      → retryable e ≡ true
      → loop retryable attempt n k s ≡ loop retryable attempt m (k + 1) t
  unfolding loop
  loop-again n m retryable attempt k s d h r = rw d (rw h (rw r))

  pub counted-IsRetrying : IsRetrying counted
  unfolding counted
  counted-IsRetrying = record {
    done = λ stop retryable attempt k. loop-done (stop - k) retryable attempt k;
    fatal = λ stop retryable attempt k. loop-fatal (stop - k) retryable attempt k;
    last = λ stop retryable attempt k s h over.
        let none_left : stop - k ≡ 0 = omega arith in rw none_left h;
    again = λ stop retryable attempt k s h r more.
        loop-again (stop - k) (stop - (k + 1)) retryable attempt k s (omega arith) h r;
  }
