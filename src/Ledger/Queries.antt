-- ===== src/Ledger/Queries.antt =====
-- The reading statements of src/sqlite_ledger_storage.py: what `list_all` and `get_incremental` return.
use ops_sentry.Prelude.{
  zero, suc, All-take, All-filter, filter_holds, string_eq, nat_eq, ℕ, String, ◌≡◌, refl, true,
  false, Option, List, [], ◌∷◌, arith, contains, ◌∙◌, ap, map, All, ok, take, filter, length, min,
  length-take,
}
use ops_sentry.Prelude.Order.{str_lt_trans, str_lt_asymm, str_lt_total}
use ops_sentry.Prelude.Sorting.{sort, IsSorted, sort-IsSorted, All-sort, length-sort}
use ops_sentry.Ledger.Entry.{LedgerEntry, valid_statuses}
use ops_sentry.Ledger.Storage.{Table, earlier, later, is_after, has_status, read_rows, list_all}
use ops_sentry.Ledger.Spec.{IsLedger, as_read, row_to_entry-known}

abbrev pub IsKnown : LedgerEntry → Type 0
IsKnown r = contains r.status valid_statuses ≡ true

pub read_rows-known : (t : List LedgerEntry) → All IsKnown t → read_rows t ≡ ok (map as_read t)
unfolding read_rows
read_rows-known [] h = refl
read_rows-known (r ∷ t) h = rw (row_to_entry-known r h.0, read_rows-known t h.1)

pub earlier_asymm : (a b : LedgerEntry) → earlier a b ≡ true → earlier b a ≡ false
unfolding earlier
earlier_asymm a b h = ground (arith, str_lt_asymm a.id b.id)

pub earlier_trans :
    (a b c : LedgerEntry) → earlier a b ≡ true → earlier b c ≡ true → earlier a c ≡ true
unfolding earlier
earlier_trans a b c h k = ground (arith, str_lt_trans a.id b.id c.id)

-- Not being before is transitive too, since the order is total.
pub earlier-through :
    (a b c : LedgerEntry) → earlier b a ≡ false → earlier c b ≡ false → earlier c a ≡ false
unfolding earlier
earlier-through a b c h k = ground (
  arith,
  str_lt_trans c.id a.id b.id,
  str_lt_total a.id b.id,
  str_lt_total b.id c.id,
  str_lt_trans a.id b.id c.id,
  str_lt_asymm c.id a.id,
)

pub is_after-eq-earlier : (e r : LedgerEntry) → is_after e.created_at e.id r ≡ earlier e r
unfolding is_after earlier
is_after-eq-earlier e r = ground arith

IsSorted-take : (n : ℕ) (xs : List LedgerEntry) → IsSorted later xs → IsSorted later (take n xs)
IsSorted-take zero xs h = tt
IsSorted-take (suc n) [] h = tt
IsSorted-take (suc n) (x ∷ xs) h = (All-take _ n xs h.0, IsSorted-take n xs h.1)

later_asymm : (a b : LedgerEntry) → later a b ≡ true → later b a ≡ false
unfolding later
later_asymm a b h = earlier_asymm b a h

later-through : (a b c : LedgerEntry) → later b a ≡ false → later c b ≡ false → later c a ≡ false
unfolding later
later-through a b c h k = earlier-through c b a k h

-- What `list_all` found: its rows, newest first, all of the status asked for, and as many as there are up
-- to the limit.
pub record Listing (status : Option String) (limit : ℕ) (t : Table) (es : List LedgerEntry)
    : Type 0 where
  pub newest_first : IsSorted later es
  pub of_status : All (λ r. has_status status r ≡ true) es
  pub size : length es ≡ min limit (length (filter (has_status status) t))

-- On every ledger, `list_all` returns rows of the status asked for as a reader gets them, newest first by creation
-- time and id, and as many of them as there are, up to the limit.
pub list_all-Listing :
    (status : Option String) (limit : ℕ) (t : Table)
    → IsLedger t
    → (es : List LedgerEntry) × (list_all status limit t ≡ ok (map as_read es))
      × Listing status limit t es
unfolding list_all
list_all-Listing status limit t h =
    let found = filter (has_status status) t in
    let sorted = sort later found in
    (
      take limit sorted,
      read_rows-known (take limit sorted) (
          All-take IsKnown limit sorted
            (All-sort later IsKnown found (All-filter IsKnown (has_status status) t h.known))),
      record {
        newest_first =
            IsSorted-take limit sorted (sort-IsSorted later later_asymm later-through found);
        of_status =
            All-take _ limit sorted (All-sort later _ found (filter_holds (has_status status) t));
        size = length-take limit sorted ∙ ap (min limit) (length-sort later found);
      },
    )
