-- ===== src/Ledger/Updating.antt =====
-- `update_or_refuse`, the common part of `transition` and `update_checkpoint` of src/ops_ledger.py.
use ops_sentry.Prelude.{
  string_eq, nat_eq, String, ◌≡◌, refl, true, false, none, some, List, ◌∷◌, ok, err, contains, ◌∙◌,
  ap, beq_self, filter, ltb,
}
use ops_sentry.Ledger.Entry.{LedgerEntry, LedgerError, valid_statuses, not_found}
use ops_sentry.Ledger.Storage.{
  Table, Assignment, find_row, is_expected, is_mutable, update_rows, assign_all, selects, update,
  run_update, get,
}
use ops_sentry.Ledger.Rows.{
  row_count_absent, id-assign_all, id-find_row, HasUniqueIds, row_count-eq, selected_count,
  update_rows_unselected,
}
use ops_sentry.Ledger.Operations.{after_update, update_or_refuse, get_entry}
use ops_sentry.Ledger.Spec.{as_read, replace_row, find_row-replace_row, update_rows-eq-replace_row}

pub get_found :
    (k : String) (t : Table) (r : LedgerEntry)
    → find_row k t ≡ some r
    → contains r.status valid_statuses ≡ true
    → get k t ≡ ok (some (as_read r))
unfolding get
get_found k t r h known = rw (h, known)

-- Reading the entry again, after the UPDATE.
module _ (k : String) (why : LedgerEntry → LedgerError) (t : Table) where
  after_update_absent : find_row k t ≡ none → after_update k why false t ≡ (err (not_found k), t)
  unfolding after_update get
  after_update_absent h = rw h

  module _ (r : LedgerEntry) (h : find_row k t ≡ some r)
      (known : contains r.status valid_statuses ≡ true) where
    after_update_refused : after_update k why false t ≡ (err (why (as_read r)), t)
    unfolding after_update
    after_update_refused = rw (get_found k t r h known)

    after_update_success : after_update k why true t ≡ (ok (as_read r), t)
    unfolding after_update get_entry
    after_update_success = rw (get_found k t r h known)

module _ (k : String) (first : Assignment) (rest : List Assignment) (expected : List String)
    (why : LedgerEntry → LedgerError) (t : Table) (unique : HasUniqueIds t)
    (writes : filter is_mutable (first ∷ rest) ≡ first ∷ rest) where
  abbrev updates : List Assignment
  updates = first ∷ rest

  update_lem :
      update k updates expected t
      ≡ (ltb 0 (selected_count k expected (find_row k t)), update_rows k expected updates t)
  unfolding update run_update
  update_lem =
      ap (run_update k expected t) writes
      ∙ ap (λ n. (ltb 0 n, update_rows k expected updates t)) (row_count-eq k expected t unique)

  -- The three cases, in terms of what the rest of the call does with the UPDATE's answer.
  pub update_or_refuse_absent :
      find_row k t ≡ none → update_or_refuse k updates expected why t ≡ (err (not_found k), t)
  unfolding update_or_refuse
  update_or_refuse_absent h =
      rw (update_lem, h)
        (rw (update_rows_unselected k expected updates t (row_count_absent k expected t h))
          (after_update_absent k why t h))

  pub update_or_refuse_unexpected :
      (r : LedgerEntry)
      → find_row k t ≡ some r
      → contains r.status valid_statuses ≡ true
      → is_expected expected r.status ≡ false
      → update_or_refuse k updates expected why t ≡ (err (why (as_read r)), t)
  unfolding update_or_refuse
  update_or_refuse_unexpected r h known e =
      rw (update_lem, h, e)
        (rw
          (update_rows_unselected k expected updates t
            (row_count-eq k expected t unique ∙ rw (h, e)))
          (after_update_refused k why t r h known))

  changed_selected :
      (r : LedgerEntry)
      → find_row k t ≡ some r
      → is_expected expected r.status ≡ true
      → update_rows k expected updates t ≡ replace_row k (assign_all updates r) t
  unfolding selects
  changed_selected r h e =
      update_rows-eq-replace_row k expected updates t r unique h
      ∙ ap (λ x. replace_row k x t) (rw (id-find_row k t h, e, beq_self k) refl)

  pub update_or_refuse_expected :
      (r : LedgerEntry)
      → find_row k t ≡ some r
      → contains (assign_all updates r).status valid_statuses ≡ true
      → is_expected expected r.status ≡ true
      → update_or_refuse k updates expected why t
        ≡ (ok (as_read (assign_all updates r)), replace_row k (assign_all updates r) t)
  unfolding update_or_refuse
  update_or_refuse_expected r h known e =
      rw (update_lem, h, e)
        (rw (changed_selected r h e) (
          after_update_success k why (replace_row k (assign_all updates r) t) (assign_all updates r)
            (find_row-replace_row k (assign_all updates r) t
              (id-assign_all updates r ∙ id-find_row k t h) h)
            known))
