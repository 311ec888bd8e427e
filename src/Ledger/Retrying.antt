-- ===== src/Ledger/Retrying.antt =====
-- How often `with_retry` of src/sqlite_ledger_storage.py calls, and what it ends with.
use ops_sentry.Prelude.{
  ℕ, zero, suc, ◌+◌, ◌-◌, ◌<◌, ◌≡◌, ◌≢◌, refl, ◌⊎◌, inl, inr, arith, ok, err, ltb, if◌then◌else◌,
}
use mathlib.Core.Path.{subst}
use ops_sentry.Ledger.Retry.{
  Outcome, Retried, done, locked, failed, database_locked, other_error, attempt_from, with_retry,
}

-- What the call that is the last one makes of the decorated call.
abbrev pub ending {ℓ} : {A : Type ℓ} → Outcome A → ℕ → Retried A
ending (done a) n = record { result = ok a; calls = n }
ending locked n = record { result = err database_locked; calls = n }
ending failed n = record { result = err other_error; calls = n }

module _ {ℓ} {A : Type ℓ} (func : ℕ → Outcome A) (max_attempts : ℕ) where
  -- `k` is the number of the last call, `i` that of the next one.
  reach :
      (fuel i d k : ℕ)
      → i + d ≡ k
      → k < max_attempts
      → i + fuel ≡ max_attempts
      → ((j : ℕ) → j < k → func j ≡ locked)
      → ((k ≡ max_attempts - 1) ⊎ (func k ≢ locked))
      → attempt_from func max_attempts fuel i ≡ ending (func k) (suc k)
  unfolding attempt_from
  reach zero i d k e l f a b = absurd (omega arith)
  reach (suc fuel) i zero k e l f a b =
      let q : k ≡ i = omega arith in
      rw q (last_call (func i) (subst (λ x. (x ≡ max_attempts - 1) ⊎ (func x ≢ locked)) q b))
    where
      last_call :
          (o : Outcome A)
          → ((i ≡ max_attempts - 1) ⊎ (o ≢ locked))
          → elim o [
            | done a ↦ record { result = ok a; calls = suc i }
            | locked ↦
                if ltb i (max_attempts - 1)
                then attempt_from func max_attempts fuel (suc i)
                else record { result = err database_locked; calls = suc i }
            | failed ↦ record { result = err other_error; calls = suc i }
          ]
            ≡ ending o (suc i)
      last_call (done a) w = refl
      last_call locked (inl w) = ground arith
      last_call locked (inr w) = absurd (w refl)
      last_call failed w = refl
  reach (suc fuel) i (suc d) k e l f a b =
      ground (arith, a i (omega arith), reach fuel (suc i) d k (omega arith) l (omega arith) a b)

  -- The decorated call is made again exactly as long as the database is locked and attempts are left: call k is the
  -- last one if all before it found the database locked, and it did not or is the last that is allowed.
  pub with_retry_lem :
      (k : ℕ)
      → k < max_attempts
      → ((j : ℕ) → j < k → func j ≡ locked)
      → ((k ≡ max_attempts - 1) ⊎ (func k ≢ locked))
      → with_retry func max_attempts ≡ ending (func k) (suc k)
  unfolding with_retry
  with_retry_lem k l a b = reach max_attempts 0 k k (omega arith) l (omega arith) a b
