-- ===== src/Shipper/Examples.antt =====
-- A shipper on a ledger of two entries, for the theorems about src/cluster/shipper.py.
use ops_sentry.Prelude.{
  string_eq, ℕ, ◌≡◌, ◌==◌, refl, false, true, none, [], ◌∷◌, arith, String, any, inl,
}
use ops_sentry.Ledger.Entry.{LedgerEntry}
use ops_sentry.Ledger.Storage.{Table, find_row, is_after, earlier}
use ops_sentry.Ledger.Spec.{IsLedger}
use ops_sentry.Ledger.Cursor.{in_order}
use ops_sentry.Prelude.Sorting.{sort}
use ops_sentry.Shipper.{Shipper, delivered, broken, start_cursor}
use ops_sentry.Shipper.Batches.{ship_rounds, ship_rounds_drain, pending, messages}
use ops_sentry.Shipper.Coverage.{batch, reboot, happen_all, IsCovered, happen_all-IsCovered}
use ops_sentry.Shipper.Skipping.{late_entry_skipped}

abbrev entry : String → ℕ → LedgerEntry
entry k ts = record {
  id = k;
  action = "deploy";
  status = "pending";
  checkpoint = [];
  created_at = ts;
  updated_at = ts;
  accio_ref = none;
  metadata = [];
  last_error = none;
}

abbrev ledger : Table
ledger = entry "b" 10 ∷ entry "a" 10 ∷ []

ledger-IsLedger : IsLedger ledger
unfolding find_row
ledger-IsLedger = record { unique = (refl, (refl, tt)); known = (refl, (refl, tt)) }

abbrev new_shipper : Shipper
new_shipper = record { memory = start_cursor; file = none; stream = [] }

-- It has passed "b" when "a" comes.
abbrev past_b : Shipper
past_b = record { memory = record { last_ts = 10; last_id = "b" }; file = none; stream = [] }

drain_example :
    ((ship_rounds 2 1 ledger new_shipper).stream ≡ messages (pending ledger start_cursor))
    × (pending ledger (ship_rounds 2 1 ledger new_shipper).memory ≡ [])
unfolding pending in_order is_after sort earlier
drain_example = ship_rounds_drain 1 ledger ledger-IsLedger (omega arith) 2 new_shipper (omega arith)

shipping_example : IsCovered ledger (
    happen_all 1 ledger
      (batch (broken 1) true ∷ batch delivered false ∷ reboot ∷ batch delivered true ∷ [])
      new_shipper)
unfolding is_after
shipping_example =
    happen_all-IsCovered 1 ledger
      (batch (broken 1) true ∷ batch delivered false ∷ reboot ∷ batch delivered true ∷ [])
      new_shipper ledger-IsLedger
      (record { memory = (inl refl, (inl refl, tt)); file = (inl refl, (inl refl, tt)) })

skipped_example : any (λ m. m.id == "a") (ship_rounds 3 100 ledger past_b).stream ≡ false
unfolding find_row is_after
skipped_example =
    late_entry_skipped "a" 3 100 ledger past_b (entry "a" 10) ledger-IsLedger (omega arith) refl
      refl refl
