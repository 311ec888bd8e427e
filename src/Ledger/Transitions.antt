-- ===== src/Ledger/Transitions.antt =====
-- The transitions of src/ops_ledger.py against the table VALID_TRANSITIONS of src/ledger_entry.py.
use ops_sentry.Prelude.{string_eq, String, ◌≡◌, refl, Bool, true, [], contains, lookup}
use ops_sentry.Ledger.Entry.{valid_statuses, valid_transitions, get_or}
use ops_sentry.Ledger.Statuses.{IsOther, by_status, by_known}
use ops_sentry.Ledger.Storage.{is_expected}
use ops_sentry.Ledger.Operations.{allowed_old_statuses, sources}

-- Whether the table lets an entry go from `old` to `new`.
abbrev pub allows : String → String → Bool
allows old new = contains new (get_or (lookup old valid_transitions) [])

abbrev Agrees : String → String → Type 0
Agrees status old = is_expected (allowed_old_statuses status) old ≡ allows old status

module _ (old : String) (o : IsOther old) where
  to_pending : Agrees "pending" old
  unfolding is_expected sources lookup
  to_pending = rw (o.not_pending, o.not_running, o.not_completed, o.not_failed)

  to_running : Agrees "running" old
  unfolding is_expected sources lookup
  to_running = rw (o.not_pending, o.not_running, o.not_completed, o.not_failed)

  to_completed : Agrees "completed" old
  unfolding is_expected sources lookup
  to_completed = rw (o.not_pending, o.not_running, o.not_completed, o.not_failed)

  to_failed : Agrees "failed" old
  unfolding is_expected sources lookup
  to_failed = rw (o.not_pending, o.not_running, o.not_completed, o.not_failed)

-- The statuses that the UPDATE expects are those from which the table has a step to `status`.
pub is_expected-allowed_old_statuses :
    (old status : String) → contains status valid_statuses ≡ true → Agrees status old
unfolding is_expected sources lookup
is_expected-allowed_old_statuses old =
    by_known (λ status. Agrees status old)
      (by_status (Agrees "pending") refl refl refl refl to_pending old)
      (by_status (Agrees "running") refl refl refl refl to_running old)
      (by_status (Agrees "completed") refl refl refl refl to_completed old)
      (by_status (Agrees "failed") refl refl refl refl to_failed old)
