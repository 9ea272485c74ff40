-- ===== src/Iceberg/Retry/Tests.antt =====
-- The theorems on a table that others change a number of times before they leave it alone.
use community_integrations.Base.{
  ℕ, zero, suc, ◌+◌, ◌≤◌, ◌<◌, ◌≡◌, refl, ◌⊎◌, inl, inr, Bool, true, false, Option, none, some,
  arith,
}
use community_integrations.Iceberg.Retry.{Action, execute}
use community_integrations.Iceberg.Retry.Laws.{
  persist, execute-eq-persist, execute_calls, execute_succeeds,
}
use community_integrations.Iceberg.Retry.Model.{counted, counted-IsRetrying}

data Conflict : Type 0 where
  stale broken : Conflict

abbrev is_stale : Conflict → Bool
is_stale stale = true
is_stale broken = false

record Shared : Type 0 where
  conflicts : ℕ
  calls : ℕ

-- Fails once for each conflict that is left.
write_from : ℕ → ℕ → Option Conflict × Shared
write_from zero calls = (none, record { conflicts = 0; calls = calls + 1 })
write_from (suc n) calls = (some stale, record { conflicts = n; calls = calls + 1 })

write : Action Conflict Shared
unfolding write_from
write s = write_from s.conflicts s.calls

reload : Action Conflict Shared
reload s = (none, s)

abbrev start : Shared
start = record { conflicts = 2; calls = 0 }

runs_out :
    execute write reload counted 2 is_stale start
    ≡ (some stale, record { conflicts = 0; calls = 2 })
unfolding execute counted write reload
runs_out = refl

write_calls : (s : Shared) → (write s).1.calls ≡ s.calls + 1
unfolding write
write_calls s = ground arith

write_progress :
    (s : Shared)
    → ((write s).0 ≡ none)
      ⊎ ((e : Conflict) × ((write s).0 ≡ some e)
          × (is_stale e ≡ true)
          × ((write s).1.conflicts < s.conflicts))
unfolding write
write_progress s = go s.conflicts
  where
    go :
        (n : ℕ)
        → ((write_from n s.calls).0 ≡ none)
          ⊎ ((e : Conflict) × ((write_from n s.calls).0 ≡ some e)
              × (is_stale e ≡ true)
              × ((write_from n s.calls).1.conflicts < n))
    go zero = inl refl
    go (suc n) = inr (stale, refl, refl, omega arith)

execute-eq-persist_example :
    execute write reload counted 3 is_stale start ≡ persist write reload is_stale 2 start
execute-eq-persist_example = execute-eq-persist counted-IsRetrying write reload is_stale 3 start

execute_calls_example :
    (1 ≤ (execute write reload counted 3 is_stale start).1.calls)
    × ((execute write reload counted 3 is_stale start).1.calls ≤ 3)
unfolding reload
execute_calls_example =
    execute_calls write reload is_stale (λ s. s.calls) write_calls (λ s. refl) counted-IsRetrying 3
      start

execute_succeeds_example : (execute write reload counted 3 is_stale start).0 ≡ none
unfolding reload
execute_succeeds_example =
    execute_succeeds write reload is_stale (λ s. s.conflicts) write_progress
      (λ s. (refl, omega arith)) counted-IsRetrying 3 start (omega arith)
