-- ===== src/Ledger/Retry.antt =====
-- src/sqlite_ledger_storage.py, `with_retry`: the decorator of every storage call.
use ops_sentry.Prelude.{ℕ, zero, suc, ◌-◌, ltb, if◌then◌else◌, Result, ok, err}

-- How one call of the function ends.
pub data Outcome {ℓ} (A : Type ℓ) : Type ℓ where
  done : A → Outcome A
  locked : Outcome A  -- OperationalError "database is locked"
  failed : Outcome A  -- any other exception

pub data Raised : Type 0 where
  database_locked other_error : Raised

-- What the wrapper ends with, and the number of calls made. The sleeps between them are left out.
pub record Retried {ℓ} (A : Type ℓ) : Type ℓ where
  pub result : Result Raised A
  pub calls : ℕ

module _ {ℓ} {A : Type ℓ} (func : ℕ → Outcome A) (max_attempts : ℕ) where
  -- `func n` is the n-th call; `fuel` is the number of rounds left of the `while`.
  unfoldable pub attempt_from : ℕ → ℕ → Retried A
  attempt_from zero attempts = elim (func attempts) [
    | done a ↦ record { result = ok a; calls = suc attempts }
    | locked ↦ record { result = err database_locked; calls = suc attempts }
    | failed ↦ record { result = err other_error; calls = suc attempts }
  ]
  attempt_from (suc fuel) attempts =
      let again = attempt_from fuel (suc attempts) in
      elim (func attempts) [
        | done a ↦ record { result = ok a; calls = suc attempts }
        | locked ↦
            if ltb attempts (max_attempts - 1)
            then again
            else record { result = err database_locked; calls = suc attempts }
        | failed ↦ record { result = err other_error; calls = suc attempts }
      ]

  unfoldable pub with_retry : Retried A
  unfolding attempt_from
  with_retry = attempt_from max_attempts 0
