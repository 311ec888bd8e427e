-- ===== src/Ledger/Records.antt =====
-- `to_record` and `from_record` of src/ledger_entry.py.
use ops_sentry.Prelude.{string_eq, ℕ, ◌≡◌, arith, ok}
use ops_sentry.Ledger.Entry.{LedgerEntry, IsWellFormed, from_record, to_record}

-- An entry whose status is one of the four, and whose reference is not the empty text, comes back from its record
-- as it was, whatever the clock says.
pub from_record-to_record :
    (now : ℕ) (e : LedgerEntry) → IsWellFormed e → from_record now (to_record e) ≡ ok e
unfolding from_record to_record
from_record-to_record now e w = ground (arith, w.known, w.referenced)
