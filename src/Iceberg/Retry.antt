-- ===== src/Iceberg/Retry.antt =====
-- _utils/retries.py: an operation on a table that is tried again on some exceptions, after a
-- refresh of the table. The loop is tenacity's `Retrying`, which is a parameter.
pub mod Laws
pub mod Hoare
pub mod Model
mod Tests
use community_integrations.Base.{
  ℕ, ◌+◌, ◌≤◌, ◌<◌, ◌≡◌, Bool, true, false, Option, none, some, if◌then◌else◌,
}
use community_integrations.Base.Lists.{ltb}
pub use community_integrations.Base.Action.{Action}

-- `run stop retryable attempt k s`: `Retrying(stop=stop_after_attempt(stop), reraise=True,
-- retry=retry_if_exception_type(…))`, from attempt number `k` on. An attempt sees its number.
pub record Retrying (E S : Type 0) : Type 0 where
  pub run : ℕ → (E → Bool) → (ℕ → Action E S) → ℕ → Action E S

-- What tenacity documents of it.
pub record IsRetrying {E S : Type 0} (R : Retrying E S) : Type 0 where
  pub done :
      (stop : ℕ) (retryable : E → Bool) (attempt : ℕ → Action E S) (k : ℕ) (s : S) {t : S}
      → attempt k s ≡ (none, t)
      → R.run stop retryable attempt k s ≡ (none, t)
  pub fatal :
      (stop : ℕ) (retryable : E → Bool) (attempt : ℕ → Action E S) (k : ℕ) (s : S) {e : E} {t : S}
      → attempt k s ≡ (some e, t)
      → retryable e ≡ false
      → R.run stop retryable attempt k s ≡ (some e, t)
  pub last :
      (stop : ℕ) (retryable : E → Bool) (attempt : ℕ → Action E S) (k : ℕ) (s : S) {e : E} {t : S}
      → attempt k s ≡ (some e, t)
      → stop ≤ k
      → R.run stop retryable attempt k s ≡ (some e, t)
  pub again :
      (stop : ℕ) (retryable : E → Bool) (attempt : ℕ → Action E S) (k : ℕ) (s : S) {e : E} {t : S}
      → attempt k s ≡ (some e, t)
      → retryable e ≡ true
      → k < stop
      → R.run stop retryable attempt k s ≡ R.run stop retryable attempt (k + 1) t

module _ {E S : Type 0} (operation refresh : Action E S) where
  -- `self.refresh(); raise e`. What `refresh` raises replaces the exception that is handled.
  abbrev reraise : E → Option E × S → Option E × S
  reraise e (none, t) = (some e, t)
  reraise e (some f, t) = (some f, t)

  -- The `except exception_types` clause of one attempt.
  abbrev handle : ℕ → (E → Bool) → ℕ → Option E × S → Option E × S
  handle retries retryable k (none, t) = (none, t)
  handle retries retryable k (some e, t) =
      if retryable e
      then (if ltb k retries then reraise e (refresh t) else (some e, t))
      else (some e, t)

  -- The body of the loop.
  attempt : ℕ → (E → Bool) → ℕ → Action E S
  attempt retries retryable k s = handle retries retryable k (operation s)

  unfoldable pub execute : Retrying E S → ℕ → (E → Bool) → Action E S
  unfolding attempt
  execute R retries retryable = R.run retries retryable (attempt retries retryable) 1
