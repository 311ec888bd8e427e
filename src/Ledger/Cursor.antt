-- ===== src/Ledger/Cursor.antt =====
-- Reading src/sqlite_ledger_storage.py's ledger in batches by the key of the last entry read.
use ops_sentry.Prelude.{
  string_eq, nat_eq, ℕ, zero, suc, String, ◌≡◌, ◌≢◌, true, false, Bool, none, some, List, [], ◌∷◌,
  arith, eq_iff, ◌==◌, ◌∙◌, sym, map, All, All-filter, All-take, All-map_of, filter_holds,
  filter-All, filter-filter, ok, take, drop, filter, get_last?, Bool-cases, inl, inr,
}
use mathlib.Core.Path.{subst, fun_ext}
use ops_sentry.Prelude.Order.{str_lt_trans, str_lt_irrefl, str_lt_total}
use ops_sentry.Prelude.Sorting.{sort, place, All-sort, All-place, filter-sort}
use ops_sentry.Ledger.Entry.{LedgerEntry}
use ops_sentry.Ledger.Storage.{Table, find_row, earlier, is_after, get_incremental}
use ops_sentry.Ledger.Rows.{HasUniqueIds}
use ops_sentry.Ledger.Spec.{IsLedger, as_read}
use ops_sentry.Ledger.Queries.{
  IsKnown, read_rows-known, earlier_asymm, earlier_trans, earlier-through, is_after-eq-earlier,
}

-- Every entry is before all that stand behind it.
abbrev pub IsChain : List LedgerEntry → Type 0
IsChain [] = Unit
IsChain (x ∷ xs) = All (λ y. earlier x y ≡ true) xs × IsChain xs

earlier_of_ne : (a b : LedgerEntry) → earlier b a ≡ false → a.id ≢ b.id → earlier a b ≡ true
unfolding earlier
earlier_of_ne a b h n = ground (arith, str_lt_total a.id b.id, eq_iff a.id b.id)

-- The ledger in the order of ORDER BY created_at, id.
unfoldable pub in_order : Table → List LedgerEntry
in_order t = sort earlier t

pub others : (k : String) (t : Table) → find_row k t ≡ none → All (λ r. r.id ≢ k) t
unfolding find_row
others k [] h = tt
others k (r ∷ t) h = elim (Bool-cases (r.id == k)) [
  | inl p ↦ ground arith
  | inr q ↦ ((λ e. cc (q, (eq_iff r.id k).1 e)), others k t (rw q at h))
]

place-IsChain :
    (x : LedgerEntry) (ys : List LedgerEntry)
    → All (λ y. y.id ≢ x.id) ys
    → IsChain ys
    → IsChain (place earlier x ys)
unfolding place
place-IsChain x [] n h = (tt, tt)
place-IsChain x (y ∷ ys) n h = elim (Bool-cases (earlier y x)) [
  | inl b ↦
      rw b (All-place earlier (λ z. earlier y z ≡ true) x ys b h.0, place-IsChain x ys n.1 h.1)
  | inr b ↦ rw b (
      let c = earlier_of_ne x y b (λ e. n.0 (sym e)) in
      ((c, All-map_of _ _ (λ z d. earlier_trans x y z c d) ys h.0), h))
]

pub in_order-IsChain : (t : Table) → HasUniqueIds t → IsChain (in_order t)
unfolding in_order sort
in_order-IsChain [] u = tt
in_order-IsChain (r ∷ t) u =
    place-IsChain r (sort earlier t) (All-sort earlier _ t (others r.id t u.0))
      (in_order-IsChain t u.1)

-- What `get_incremental` returns: the first `limit` entries, in order, behind the cursor.
pub get_incremental-eq :
    (ts : ℕ) (id : String) (limit : ℕ) (t : Table)
    → IsLedger t
    → get_incremental ts id limit t
      ≡ ok (map as_read (take limit (filter (is_after ts id) (in_order t))))
unfolding get_incremental in_order
get_incremental-eq ts id limit t h =
    rw (filter-sort earlier (is_after ts id) earlier_asymm earlier-through t) (
      read_rows-known (take limit (sort earlier (filter (is_after ts id) t))) (
        All-take IsKnown limit _
          (All-sort earlier IsKnown _ (All-filter IsKnown (is_after ts id) t h.known))))

IsChain-filter :
    (p : LedgerEntry → Bool) (xs : List LedgerEntry) → IsChain xs → IsChain (filter p xs)
IsChain-filter p [] h = tt
IsChain-filter p (x ∷ xs) h = elim (Bool-cases (p x)) [
  | inl a ↦ rw a (All-filter _ p xs h.0, IsChain-filter p xs h.1)
  | inr a ↦ rw a (IsChain-filter p xs h.1)
]

earlier_irrefl : (x : LedgerEntry) → earlier x x ≡ false
unfolding earlier
earlier_irrefl x = ground (arith, str_lt_irrefl x.id)

pub last_in :
    (P : LedgerEntry → Type 0) (n : ℕ) (xs : List LedgerEntry) (x : LedgerEntry)
    → All P xs
    → get_last? (take n xs) ≡ some x
    → P x
last_in P zero xs x h e = cc
last_in P (suc n) [] x h e = cc
last_in P (suc zero) (y ∷ ys) x h e = let q : y ≡ x = cc in subst P q h.0
last_in P (suc (suc n)) (y ∷ []) x h e = let q : y ≡ x = cc in subst P q h.0
last_in P (suc (suc n)) (y ∷ z ∷ ys) x h e = last_in P (suc n) (z ∷ ys) x h.1 e

is_after_trans :
    (ts : ℕ) (id : String) (x y : LedgerEntry)
    → is_after ts id x ≡ true
    → earlier x y ≡ true
    → is_after ts id y ≡ true
unfolding is_after earlier
is_after_trans ts id x y h k = ground (arith, str_lt_trans id x.id y.id)

-- In a chain, what stands behind the last of the first n entries is all but those n.
pub behind_last :
    (n : ℕ) (xs : List LedgerEntry) (x : LedgerEntry)
    → IsChain xs
    → get_last? (take n xs) ≡ some x
    → filter (earlier x) xs ≡ drop n xs
behind_last zero xs x h e = cc
behind_last (suc n) [] x h e = cc
behind_last (suc zero) (y ∷ ys) x h e =
    let q : y ≡ x = cc in
    subst (λ w. filter (earlier w) (y ∷ ys) ≡ ys) q
      (rw (earlier_irrefl y) (filter-All (earlier y) ys h.0))
behind_last (suc (suc n)) (y ∷ []) x h e =
    let q : y ≡ x = cc in subst (λ w. filter (earlier w) (y ∷ []) ≡ []) q (rw (earlier_irrefl y))
behind_last (suc (suc n)) (y ∷ z ∷ ys) x h e =
    rw (earlier_asymm y x (last_in (λ w. earlier y w ≡ true) (suc n) (z ∷ ys) x h.0 e))
      (behind_last (suc n) (z ∷ ys) x h.1 e)

-- After a batch the cursor stands on its last entry, and what is behind it is what the batch left.
pub next_batch :
    (ts : ℕ) (id : String) (n : ℕ) (t : Table) (x : LedgerEntry)
    → IsLedger t
    → get_last? (take n (filter (is_after ts id) (in_order t))) ≡ some x
    → filter (is_after x.created_at x.id) (in_order t)
      ≡ drop n (filter (is_after ts id) (in_order t))
next_batch ts id n t x h e = rw (fun_ext (is_after-eq-earlier x)) (
    sym (filter-filter (earlier x) (is_after ts id) later_after (in_order t))
    ∙ behind_last n (filter (is_after ts id) (in_order t)) x
        (IsChain-filter (is_after ts id) (in_order t) (in_order-IsChain t h.unique)) e)
  where
    x_after : is_after ts id x ≡ true
    x_after =
        last_in (λ w. is_after ts id w ≡ true) n _ x (filter_holds (is_after ts id) (in_order t)) e

    later_after : (y : LedgerEntry) → earlier x y ≡ true → is_after ts id y ≡ true
    later_after y b = is_after_trans ts id x y x_after b
