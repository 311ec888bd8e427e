-- ===== src/Ledger/Examples.antt =====
-- A ledger of two entries, on which the theorems about src/ops_ledger.py and its storage are applied.
use ops_sentry.Prelude.{
  string_eq, nat_eq, ℕ, zero, suc, arith, ◌<◌, ◌≡◌, String, refl, none, some, List, [], ◌∷◌, ok,
  ne_of_beq,
}
use ops_sentry.Ledger.Entry.{LedgerEntry, or_else, from_record, to_record}
use ops_sentry.Ledger.Storage.{Table, find_row}
use ops_sentry.Ledger.Spec.{IsLedger, transition_outcome}
use ops_sentry.Ledger.Operations.{Options, create_entry, transition}
use ops_sentry.Ledger.Retry.{Outcome, done, locked}
use ops_sentry.Ledger.Records.{from_record-to_record}
use ops_sentry.Ledger.Refinement.{transition-eq-transition_outcome}
use ops_sentry.Ledger.Creation.{create_entry-eq-create_outcome, create_outcome, new_entry}
use ops_sentry.Ledger.History.{Command, move, checkpoint, delete, run, run-IsLedger}
use ops_sentry.Ledger.Lifecycle.{IsChain, trail, trail-IsChain}

abbrev deploy : LedgerEntry
deploy = record {
  id = "a1";
  action = "deploy";
  status = "pending";
  checkpoint = [];
  created_at = 100;
  updated_at = 100;
  accio_ref = none;
  metadata = [];
  last_error = none;
}

abbrev backup : LedgerEntry
backup = record {
  id = "b2";
  action = "backup";
  status = "completed";
  checkpoint = [];
  created_at = 90;
  updated_at = 95;
  accio_ref = some "T-1";
  metadata = [];
  last_error = none;
}

abbrev two_entries : Table
two_entries = deploy ∷ backup ∷ []

two_entries-IsLedger : IsLedger two_entries
unfolding find_row
two_entries-IsLedger = record { unique = (refl, (refl, tt)); known = (refl, (refl, tt)) }

abbrev calls : List Command
calls =
    move "a1" "running" none none 200
    ∷ move "a1" "pending" none none 210
    ∷ checkpoint "a1" [] 220
    ∷ move "a1" "failed" none (some "timeout") 230
    ∷ delete "zz"
    ∷ []

abbrev no_options : Options
no_options = record { entry_id = some "b2"; accio_ref = none; checkpoint = none; metadata = none }

transition_example :
    transition "b2" "running" none none 300 two_entries
    ≡ transition_outcome "b2" "running" none none 300 two_entries
transition_example =
    transition-eq-transition_outcome "b2" "running" none none 300 two_entries two_entries-IsLedger

create_example :
    create_entry "restore" no_options "u7" 300 301 two_entries
    ≡ create_outcome
        (new_entry "restore" no_options "u7" 300 301 two_entries two_entries-IsLedger)
        two_entries
create_example =
    create_entry-eq-create_outcome "restore" no_options "u7" 300 301 two_entries
      two_entries-IsLedger

run_ledger_example : IsLedger (run calls two_entries)
run_ledger_example = run-IsLedger calls two_entries two_entries-IsLedger

trail_example : IsChain deploy (trail "a1" calls two_entries)
unfolding find_row
trail_example =
    trail-IsChain "a1" calls deploy two_entries two_entries-IsLedger refl
      (tt, (tt, (tt, (tt, (ne_of_beq "zz" "a1" refl, tt)))))

record_example : from_record 5 (to_record backup) ≡ ok backup
unfolding or_else
record_example = from_record-to_record 5 backup (record { known = refl; referenced = refl })

-- Locked twice, then done.
abbrev busy : ℕ → Outcome String
busy zero = locked
busy (suc zero) = locked
busy (suc (suc n)) = done "row"

busy_before : (j : ℕ) → j < 2 → busy j ≡ locked
busy_before zero l = refl
busy_before (suc zero) l = refl
busy_before (suc (suc n)) l = absurd (omega arith)
