-- ===== src/Ledger/Storage.antt =====
-- src/sqlite_ledger_storage.py: the table and its statements. A JSON column holds the value that its
-- text encodes; a row is kept as the entry of its columns.
use ops_sentry.Prelude.{
  string_eq, nat_eq, ℕ, ◌+◌, String, Bool, true, false, not, ◌&&◌, ◌||◌, Option, none, some, List,
  [], ◌∷◌, ◌++◌, Dict, Result, ok, err, ◌>>=◌, contains, filter, length, take, ltb, ◌==◌,
  if◌then◌else◌,
}
use ops_sentry.Prelude.Order.{str_lt}
use ops_sentry.Prelude.Sorting.{sort}
use ops_sentry.Prelude.Json.{Json}
use ops_sentry.Ledger.Entry.{LedgerEntry, LedgerError, integrity_error, post_init, or_else}

-- The rows in the order of their insertion.
abbrev pub Table : Type 0
Table = List LedgerEntry

-- One `key: value` of the `updates` that `update` is given.
pub data Assignment : Type 0 where
  set_id : String → Assignment
  set_created_at : ℕ → Assignment
  set_action : String → Assignment
  set_status : String → Assignment
  set_checkpoint : Dict String Json → Assignment
  set_updated_at : ℕ → Assignment
  set_accio_ref : Option String → Assignment
  set_metadata : Dict String Json → Assignment
  set_last_error : Option String → Assignment

-- `_row_to_entry`: `from_record` on a row, where every key is there. An empty reference is read as none.
unfoldable pub row_to_entry : LedgerEntry → Result LedgerError LedgerEntry
unfolding post_init or_else
row_to_entry r = post_init (record r { accio_ref = or_else r.accio_ref none })

-- SELECT * FROM ledger WHERE id = ?
unfoldable pub find_row : String → Table → Option LedgerEntry
find_row k [] = none
find_row k (r ∷ t) = if r.id == k then some r else find_row k t

abbrev read_row : Option LedgerEntry → Result LedgerError (Option LedgerEntry)
unfolding row_to_entry
read_row none = ok none
read_row (some r) = do e ← row_to_entry r; ok (some e)

unfoldable pub get : String → Table → Result LedgerError (Option LedgerEntry)
unfolding find_row row_to_entry
get k t = read_row (find_row k t)

-- INSERT: `id` is the primary key.
unfoldable pub append : LedgerEntry → Table → Result LedgerError Table
unfolding find_row
append e t = elim (find_row e.id t) [ none ↦ ok (t ++ e ∷ []) | some r ↦ err integrity_error ]

-- the keys that `update` passes over
unfoldable pub is_mutable : Assignment → Bool
is_mutable (set_id _) = false
is_mutable (set_created_at _) = false
is_mutable _ = true

unfoldable pub assign : Assignment → LedgerEntry → LedgerEntry
assign (set_id v) r = r
assign (set_created_at v) r = r
assign (set_action v) r = record r { action = v }
assign (set_status v) r = record r { status = v }
assign (set_checkpoint v) r = record r { checkpoint = v }
assign (set_updated_at v) r = record r { updated_at = v }
assign (set_accio_ref v) r = record r { accio_ref = v }
assign (set_metadata v) r = record r { metadata = v }
assign (set_last_error v) r = record r { last_error = v }

unfoldable pub assign_all : List Assignment → LedgerEntry → LedgerEntry
unfolding assign
assign_all [] r = r
assign_all (a ∷ rest) r = assign_all rest (assign a r)

-- `AND status IN (...)`, which is left out where no status is expected
unfoldable pub is_expected : List String → String → Bool
is_expected [] s = true
is_expected (x ∷ xs) s = contains s (x ∷ xs)

-- The WHERE clause of the UPDATE.
unfoldable pub selects : String → List String → LedgerEntry → Bool
unfolding is_expected
selects k expected r = r.id == k && is_expected expected r.status

unfoldable pub update_rows : String → List String → List Assignment → Table → Table
unfolding selects assign_all
update_rows k expected updates [] = []
update_rows k expected updates (r ∷ t) =
    (if selects k expected r then assign_all updates r else r) ∷ update_rows k expected updates t

unfoldable pub row_count : String → List String → Table → ℕ
unfolding selects
row_count k expected [] = 0
row_count k expected (r ∷ t) = (if selects k expected r then 1 else 0) + row_count k expected t

-- The statement, with the columns that it sets; with none of them it is not sent.
unfoldable pub run_update : String → List String → Table → List Assignment → Bool × Table
unfolding update_rows row_count
run_update k expected t [] = (true, t)
run_update k expected t (a ∷ rest) =
    (ltb 0 (row_count k expected t), update_rows k expected (a ∷ rest) t)

-- Returns whether a row was changed, with the table after it.
unfoldable pub update : String → List Assignment → List String → Table → Bool × Table
unfolding is_mutable
update k updates expected t = run_update k expected t (filter is_mutable updates)

-- ORDER BY created_at, id
unfoldable pub earlier : LedgerEntry → LedgerEntry → Bool
earlier a b = ltb a.created_at b.created_at || (a.created_at == b.created_at && str_lt a.id b.id)

-- ORDER BY created_at DESC, id DESC
unfoldable pub later : LedgerEntry → LedgerEntry → Bool
unfolding earlier
later a b = earlier b a

unfoldable pub read_rows : List LedgerEntry → Result LedgerError (List LedgerEntry)
unfolding row_to_entry
read_rows [] = ok []
read_rows (r ∷ t) = do e ← row_to_entry r; es ← read_rows t; ok (e ∷ es)

-- `if status:` is false of None and of the empty text
unfoldable pub has_status : Option String → LedgerEntry → Bool
has_status none r = true
has_status (some s) r = s == "" || r.status == s

unfoldable pub list_all : Option String → ℕ → Table → Result LedgerError (List LedgerEntry)
unfolding has_status later sort read_rows
list_all status limit t = read_rows (take limit (sort later (filter (has_status status) t)))

unfoldable pub delete : String → Table → Table
delete k t = filter (λ r. not (r.id == k)) t

unfoldable pub count : Table → ℕ
count t = length t

-- created_at > ? OR (created_at = ? AND id > ?)
unfoldable pub is_after : ℕ → String → LedgerEntry → Bool
is_after ts id r = ltb ts r.created_at || (r.created_at == ts && str_lt id r.id)

unfoldable pub get_incremental : ℕ → String → ℕ → Table → Result LedgerError (List LedgerEntry)
unfolding is_after earlier sort read_rows
get_incremental ts id limit t = read_rows (take limit (sort earlier (filter (is_after ts id) t)))
