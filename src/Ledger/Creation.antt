-- ===== src/Ledger/Creation.antt =====
-- `create_entry` and `delete_entry` of src/ops_ledger.py, on every branch.
use ops_sentry.Prelude.{
  string_eq, ℕ, String, ◌≡◌, ◌≢◌, refl, Option, none, some, [], ◌∷◌, ◌++◌, arith, eq_iff, Result,
  ok, err, ◌==◌, if◌then◌else◌, ◌∙◌, Bool-cases, Option-cases, inl, inr, All, beq_self, All-append,
}
use ops_sentry.Ledger.Entry.{LedgerEntry, LedgerError, not_found, duplicate_id}
use ops_sentry.Ledger.Storage.{Table, find_row, get, delete}
use ops_sentry.Ledger.Rows.{HasUniqueIds}
use ops_sentry.Ledger.Operations.{
  Options, store, identifier_of, pending_entry, create_entry, delete_entry,
}
use ops_sentry.Ledger.Spec.{IsLedger, as_read, known-find_row}
use ops_sentry.Ledger.Updating.{get_found}

get_absent : (k : String) (t : Table) → find_row k t ≡ none → get k t ≡ ok none
unfolding get
get_absent k t a = rw a

pub find_row-append :
    (k : String) (t : Table) (e : LedgerEntry)
    → find_row k t ≡ none
    → find_row k (t ++ e ∷ []) ≡ (if e.id == k then some e else none)
unfolding find_row
find_row-append k [] e h = refl
find_row-append k (r ∷ t) e h = ground (arith, find_row-append k t e)

pub find_row-append_other :
    (k : String) (t : Table) (e : LedgerEntry) → e.id ≢ k → find_row k (t ++ e ∷ []) ≡ find_row k t
unfolding find_row
find_row-append_other k [] e h = ground (arith, eq_iff e.id k)
find_row-append_other k (r ∷ t) e h = ground (arith, find_row-append_other k t e)

pub HasUniqueIds-append :
    (t : Table) (e : LedgerEntry)
    → HasUniqueIds t
    → find_row e.id t ≡ none
    → HasUniqueIds (t ++ e ∷ [])
unfolding find_row
HasUniqueIds-append [] e u h = (refl, tt)
HasUniqueIds-append (r ∷ t) e u h = (
  ground (arith, eq_iff r.id e.id, eq_iff e.id r.id, find_row-append_other r.id t e),
  HasUniqueIds-append t e u.1 (ground arith),
)

store_free :
    (e : LedgerEntry) (t : Table) → find_row e.id t ≡ none → store e t ≡ (ok tt, t ++ e ∷ [])
unfolding store
store_free e t a = rw (a, store)

abbrev created_or_duplicate :
    LedgerEntry → Table → Option LedgerEntry → Result LedgerError LedgerEntry × Table
created_or_duplicate e t none = (ok (as_read e), t ++ e ∷ [])
created_or_duplicate e t (some r) = (err (duplicate_id e.id), t)

-- What `create_entry` means: the new entry is pending and stands last, unless its id is taken.
abbrev pub create_outcome : LedgerEntry → Table → Result LedgerError LedgerEntry × Table
create_outcome e t = created_or_duplicate e t (find_row e.id t)

module _ (action : String) (o : Options) (fresh : String) (created updated : ℕ) (t : Table)
    (h : IsLedger t) where
  abbrev pub new_entry : LedgerEntry
  new_entry = pending_entry (identifier_of o.entry_id fresh) action o created updated

  pub create_taken :
      (r : LedgerEntry)
      → find_row (identifier_of o.entry_id fresh) t ≡ some r
      → create_entry action o fresh created updated t ≡ (err (duplicate_id new_entry.id), t)
  unfolding create_entry
  create_taken r f = rw (f, known-find_row _ t r h.known f)

  pub create_free :
      find_row (identifier_of o.entry_id fresh) t ≡ none
      → create_entry action o fresh created updated t
        ≡ (ok (as_read new_entry), t ++ new_entry ∷ [])
  unfolding create_entry
  create_free f = rw f (
      rw (store_free new_entry t f) (
        rw (
          find_row-append (identifier_of o.entry_id fresh) t new_entry f,
          beq_self (identifier_of o.entry_id fresh),
        )))

  -- On every ledger, `create_entry` adds a pending entry at the end, with the given id or else the fresh one,
  -- and returns it; where that id is taken it raises and changes nothing.
  pub create_entry-eq-create_outcome :
      create_entry action o fresh created updated t ≡ create_outcome new_entry t
  create_entry-eq-create_outcome =
      elim (Option-cases (find_row (identifier_of o.entry_id fresh) t)) [
        | inl a ↦ create_free a ∙ rw a
        | inr (r, f) ↦ create_taken r f ∙ rw f
      ]

  pub create_entry-IsLedger : IsLedger (create_entry action o fresh created updated t).1
  create_entry-IsLedger = elim (Option-cases (find_row (identifier_of o.entry_id fresh) t)) [
    | inl a ↦ rw (create_free a) (record {
      unique = HasUniqueIds-append t new_entry h.unique a;
      known = All-append _ t _ h.known (refl, tt);
    })
    | inr (r, f) ↦ rw (create_taken r f) h
  ]

find_row-delete_self : (k : String) (t : Table) → find_row k (delete k t) ≡ none
unfolding find_row delete
find_row-delete_self k [] = refl
find_row-delete_self k (r ∷ t) = ground (arith, find_row-delete_self k t)

pub find_row-delete :
    (k j : String) (t : Table) → find_row j (delete k t) ≡ (if k == j then none else find_row j t)
unfolding find_row delete
find_row-delete k j [] = ground arith
find_row-delete k j (r ∷ t) =
    ground (arith, eq_iff k j, eq_iff r.id k, eq_iff r.id j, find_row-delete k j t)

module _ (k : String) where
  HasUniqueIds-delete : (t : Table) → HasUniqueIds t → HasUniqueIds (delete k t)
  unfolding delete
  HasUniqueIds-delete [] u = tt
  HasUniqueIds-delete (r ∷ t) u = elim (Bool-cases (r.id == k)) [
    | inl p ↦ rw p (HasUniqueIds-delete t u.1)
    | inr q ↦ rw q (gone r t u.0, HasUniqueIds-delete t u.1)
  ]
    where
      gone :
          (r : LedgerEntry) (t : Table) → find_row r.id t ≡ none → find_row r.id (delete k t) ≡ none
      gone r t a = ground (arith, find_row-delete k r.id t)

  All-delete : (P : LedgerEntry → Type 0) (t : Table) → All P t → All P (delete k t)
  unfolding delete
  All-delete P [] a = tt
  All-delete P (r ∷ t) a = elim (Bool-cases (r.id == k)) [
    | inl p ↦ rw p (All-delete P t a.1)
    | inr q ↦ rw q (a.0, All-delete P t a.1)
  ]

  pub delete-IsLedger : (t : Table) → IsLedger t → IsLedger (delete k t)
  delete-IsLedger t h = record {
    unique = HasUniqueIds-delete t h.unique;
    known = All-delete _ t h.known;
  }

  -- On every ledger, `delete_entry` removes the one entry, or raises and changes nothing.
  pub delete_found :
      (t : Table)
      → IsLedger t
      → (r : LedgerEntry) → find_row k t ≡ some r
      → delete_entry k t ≡ (ok tt, delete k t)
  unfolding delete_entry
  delete_found t h r f = rw (get_found k t r f (known-find_row k t r h.known f))

  pub delete_absent : (t : Table) → find_row k t ≡ none → delete_entry k t ≡ (err (not_found k), t)
  unfolding delete_entry
  delete_absent t f = rw (get_absent k t f)
