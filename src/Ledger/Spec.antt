-- ===== src/Ledger/Spec.antt =====
-- What a transition of src/ops_ledger.py means, said without the UPDATE: the row of the id is replaced
-- if the table of transitions has the step, and nothing changes otherwise.
use ops_sentry.Prelude.{
  string_eq, ℕ, String, ◌≡◌, true, Option, none, some, List, [], ◌∷◌, arith, eq_iff, Dict, Result,
  ok, err, ◌==◌, if◌then◌else◌, contains, All,
}
use ops_sentry.Prelude.Json.{Json}
use ops_sentry.Ledger.Entry.{
  LedgerEntry, LedgerError, not_found, unsupported_status, invalid_transition, valid_statuses,
  get_or, or_else,
}
use ops_sentry.Ledger.Storage.{
  Table, Assignment, find_row, update_rows, selects, row_to_entry, assign_all,
}
use ops_sentry.Ledger.Rows.{HasUniqueIds, changed, update_rows_unselected, row_count_absent}
use ops_sentry.Ledger.Transitions.{allows}
use ops_sentry.Ledger.Operations.{transition_updates}

-- The rows of a ledger: the primary key holds, and every status is one of the four.
pub record IsLedger (t : Table) : Type 0 where
  pub unique : HasUniqueIds t
  pub known : All (λ r. contains r.status valid_statuses ≡ true) t

-- The entry as a reader gets it: an empty reference is none.
abbrev pub as_read : LedgerEntry → LedgerEntry
as_read e = record e { accio_ref = or_else e.accio_ref none }

abbrev pub error_after : String → Option String → Option String → Option String
error_after status none old = if status == "failed" then old else none
error_after status (some e) old = some e

-- The entry after a step to `status`.
abbrev pub moved :
    String → Option (Dict String Json) → Option String → ℕ → LedgerEntry → LedgerEntry
moved status checkpoint error now r = record r {
  status = status;
  updated_at = now;
  checkpoint = get_or checkpoint r.checkpoint;
  last_error = error_after status error r.last_error;
}

abbrev pub replace_row : String → LedgerEntry → Table → Table
replace_row k e [] = []
replace_row k e (r ∷ t) = if r.id == k then e ∷ t else r ∷ replace_row k e t

pub assign_all-transition_updates :
    (status : String) (checkpoint : Option (Dict String Json)) (error : Option String) (now : ℕ)
    (r : LedgerEntry)
    → assign_all (transition_updates status checkpoint error now) r
      ≡ moved status checkpoint error now r
unfolding assign_all transition_updates
assign_all-transition_updates status none none now r = ground arith
assign_all-transition_updates status (some c) none now r = ground arith
assign_all-transition_updates status none (some e) now r = ground arith
assign_all-transition_updates status (some c) (some e) now r = ground arith

pub update_rows-eq-replace_row :
    (k : String) (expected : List String) (updates : List Assignment) (t : Table) (r : LedgerEntry)
    → HasUniqueIds t
    → find_row k t ≡ some r
    → update_rows k expected updates t ≡ replace_row k (changed k expected updates r) t
unfolding find_row update_rows selects
update_rows-eq-replace_row k expected updates [] r u h = cc
update_rows-eq-replace_row k expected updates (x ∷ t) r u h = ground (
  arith,
  eq_iff x.id k,
  row_count_absent k expected t,
  update_rows_unselected k expected updates t,
  update_rows-eq-replace_row k expected updates t r,
)

pub known-find_row :
    (k : String) (t : Table) (r : LedgerEntry)
    → All (λ r. contains r.status valid_statuses ≡ true) t
    → find_row k t ≡ some r
    → contains r.status valid_statuses ≡ true
unfolding find_row
known-find_row k [] r a h = cc
known-find_row k (x ∷ t) r a h = ground (arith, known-find_row k t r)

abbrev decided :
    String
    → String
    → (LedgerEntry → LedgerEntry)
    → Table
    → Option LedgerEntry
    → Result LedgerError LedgerEntry × Table
decided k status f t none = (err (not_found k), t)
decided k status f t (some r) =
    if allows r.status status
    then (ok (as_read (f r)), replace_row k (f r) t)
    else (err (invalid_transition r.status status), t)

abbrev pub transition_outcome :
    String
    → String
    → Option (Dict String Json)
    → Option String
    → ℕ
    → Table
    → Result LedgerError LedgerEntry × Table
transition_outcome k status checkpoint error now t =
    if contains status valid_statuses
    then decided k status (moved status checkpoint error now) t (find_row k t)
    else (err (unsupported_status status), t)

pub row_to_entry-known :
    (r : LedgerEntry) → contains r.status valid_statuses ≡ true → row_to_entry r ≡ ok (as_read r)
unfolding row_to_entry
row_to_entry-known r h = rw h

pub find_row-replace_row :
    (k : String) (e : LedgerEntry) (t : Table) {r : LedgerEntry}
    → e.id ≡ k
    → find_row k t ≡ some r
    → find_row k (replace_row k e t) ≡ some e
unfolding find_row
find_row-replace_row k e [] i h = cc
find_row-replace_row k e (x ∷ t) {r} i h =
    ground (arith, eq_iff x.id k, eq_iff e.id k, find_row-replace_row k e t {r = r} i)
