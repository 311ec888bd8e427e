-- ===== src/Ledger/Rows.antt =====
-- The rows of src/sqlite_ledger_storage.py under UPDATE, INSERT and DELETE, looked up by their id.
use ops_sentry.Prelude.{
  string_eq, ℕ, String, ◌≡◌, refl, Option, none, some, List, [], ◌∷◌, arith, eq_iff, if◌then◌else◌,
  ◌∙◌,
}
use ops_sentry.Ledger.Entry.{LedgerEntry}
use ops_sentry.Ledger.Storage.{
  Table, Assignment, assign, assign_all, is_expected, selects, find_row, update_rows, row_count,
  set_id,
}

abbrev pub on_row : (LedgerEntry → LedgerEntry) → Option LedgerEntry → Option LedgerEntry
on_row f none = none
on_row f (some r) = some (f r)

-- The primary key: no id stands in two rows.
abbrev pub HasUniqueIds : Table → Type 0
HasUniqueIds [] = Unit
HasUniqueIds (r ∷ t) = (find_row r.id t ≡ none) × HasUniqueIds t

id-assign : (a : Assignment) (r : LedgerEntry) → (assign a r).id ≡ r.id
unfolding assign
id-assign (set_id v) r = refl
id-assign _ r = refl

created_at-assign : (a : Assignment) (r : LedgerEntry) → (assign a r).created_at ≡ r.created_at
unfolding assign
created_at-assign (set_id v) r = refl
created_at-assign _ r = refl

pub id-assign_all : (as' : List Assignment) (r : LedgerEntry) → (assign_all as' r).id ≡ r.id
unfolding assign_all
id-assign_all [] r = refl
id-assign_all (a ∷ rest) r = id-assign_all rest (assign a r) ∙ id-assign a r

pub created_at-assign_all :
    (as' : List Assignment) (r : LedgerEntry) → (assign_all as' r).created_at ≡ r.created_at
unfolding assign_all
created_at-assign_all [] r = refl
created_at-assign_all (a ∷ rest) r = created_at-assign_all rest (assign a r) ∙ created_at-assign a r

pub id-find_row : (k : String) (t : Table) {r : LedgerEntry} → find_row k t ≡ some r → r.id ≡ k
unfolding find_row
id-find_row k [] h = cc
id-find_row k (x ∷ t) {r} h = ground (arith, eq_iff x.id k, id-find_row k t {r = r})

module _ (k : String) (expected : List String) (updates : List Assignment) where
  abbrev pub changed : LedgerEntry → LedgerEntry
  changed r = if selects k expected r then assign_all updates r else r

  id-changed : (r : LedgerEntry) → (changed r).id ≡ r.id
  id-changed r = ground (arith, id-assign_all updates r)

  pub find_row-update_rows :
      (j : String) (t : Table)
      → find_row j (update_rows k expected updates t) ≡ on_row changed (find_row j t)
  unfolding find_row update_rows
  find_row-update_rows j [] = refl
  find_row-update_rows j (r ∷ t) = ground (arith, id-changed r, find_row-update_rows j t)

  -- Where no row is selected the UPDATE changes nothing.
  pub update_rows_unselected :
      (t : Table) → row_count k expected t ≡ 0 → update_rows k expected updates t ≡ t
  unfolding update_rows row_count
  update_rows_unselected [] h = refl
  update_rows_unselected (r ∷ t) h = ground (arith, update_rows_unselected t)

  pub HasUniqueIds-update_rows :
      (t : Table) → HasUniqueIds t → HasUniqueIds (update_rows k expected updates t)
  unfolding update_rows
  HasUniqueIds-update_rows [] h = tt
  HasUniqueIds-update_rows (r ∷ t) h =
      (rw (id-changed r, find_row-update_rows r.id t, h.0), HasUniqueIds-update_rows t h.1)

module _ (k : String) (expected : List String) where
  pub row_count_absent : (t : Table) → find_row k t ≡ none → row_count k expected t ≡ 0
  unfolding row_count find_row selects
  row_count_absent [] h = refl
  row_count_absent (r ∷ t) h = ground (arith, row_count_absent t)

  -- Under the primary key at most one row is selected: the one that is found, if its status is expected.
  abbrev pub selected_count : Option LedgerEntry → ℕ
  selected_count none = 0
  selected_count (some r) = if is_expected expected r.status then 1 else 0

  pub row_count-eq :
      (t : Table) → HasUniqueIds t → row_count k expected t ≡ selected_count (find_row k t)
  unfolding row_count find_row selects
  row_count-eq [] h = refl
  row_count-eq (r ∷ t) h = ground (arith, eq_iff r.id k, row_count_absent t, row_count-eq t)
