-- ===== src/Shipper/Skipping.antt =====
-- An entry that enters the ledger at or before the cursor of src/cluster/shipper.py is never shipped: ids
-- are random, so two entries of one millisecond may come in the other order.
use ops_sentry.Prelude.{
  string_eq, ℕ, zero, suc, ◌<◌, String, ◌≡◌, ◌≢◌, refl, true, false, Bool, List, [], ◌∷◌, ◌++◌,
  arith, ◌∙◌, sym, All, take, drop, some, any, ◌==◌, ◌||◌, All-map_of, All-both, All-take,
  All-filter, filter_holds, Bool-cases, inl, inr, eq_iff, beq_of_ne,
}
use ops_sentry.Prelude.Sorting.{All-sort}
use mathlib.Core.Path.{subst}
use mathlib.Core.Bool.{false≢true}
use ops_sentry.Ledger.Entry.{LedgerEntry}
use ops_sentry.Ledger.Storage.{Table, is_after, earlier, find_row}
use ops_sentry.Ledger.Spec.{IsLedger}
use ops_sentry.Ledger.Rows.{HasUniqueIds}
use ops_sentry.Ledger.Cursor.{in_order, others}
use ops_sentry.Shipper.{Shipper, Cursor, Message, delivered, payload, ship_batch}
use ops_sentry.Shipper.Batches.{pending, messages, ship_rounds, stream-round, pending-round}

only_row :
    (k : String) (t : Table) (r : LedgerEntry)
    → HasUniqueIds t
    → find_row k t ≡ some r
    → All (λ x. x.id ≡ k → x ≡ r) t
unfolding find_row
only_row k [] r u f = tt
only_row k (x ∷ t) r u f = elim (Bool-cases (x.id == k)) [
  | inl p ↦ (
    (λ _. cc (rw p at f)),
    All-map_of _ _ (λ y n e. absurd (n (e ∙ sym ((eq_iff x.id k).0 p)))) t (others x.id t u.0),
  )
  | inr q ↦
      ((λ e. absurd (false≢true (sym q ∙ (eq_iff x.id k).1 e))), only_row k t r u.1 (rw q at f))
]

module _ (k : String) where
  abbrev Lacks : List LedgerEntry → Type 0
  Lacks es = All (λ x. x.id ≢ k) es

  All-drop : (n : ℕ) (xs : List LedgerEntry) → Lacks xs → Lacks (drop n xs)
  All-drop zero xs h = h
  All-drop (suc n) [] h = tt
  All-drop (suc n) (x ∷ xs) h = All-drop n xs h.1

  pending-Lacks :
      (t : Table) (c : Cursor) (r : LedgerEntry)
      → IsLedger t
      → find_row k t ≡ some r
      → is_after c.last_ts c.last_id r ≡ false
      → Lacks (pending t c)
  unfolding pending in_order
  pending-Lacks t c r h f b =
      All-map_of _ _
        (λ x w e.
          false≢true (sym b ∙ subst (λ y. is_after c.last_ts c.last_id y ≡ true) (w.0 e) w.1))
        _
        (All-both _ _ _
          (All-filter _ (is_after c.last_ts c.last_id) _
            (All-sort earlier _ t (only_row k t r h.unique f)))
          (filter_holds (is_after c.last_ts c.last_id) _))

  abbrev has_message : List Message → Bool
  has_message ms = any (λ m. m.id == k) ms

  has_message-append :
      (ms ns : List Message) → has_message (ms ++ ns) ≡ (has_message ms || has_message ns)
  has_message-append [] ns = refl
  has_message-append (m ∷ ms) ns = ground (arith, has_message-append ms ns)

  Lacks-messages : (es : List LedgerEntry) → Lacks es → has_message (messages es) ≡ false
  unfolding payload
  Lacks-messages [] h = refl
  Lacks-messages (e ∷ es) h = rw (beq_of_ne e.id k h.0, Lacks-messages es h.1)

  never_sent :
      (rounds n : ℕ) (t : Table) (s : Shipper)
      → IsLedger t
      → 0 < n
      → Lacks (pending t s.memory)
      → has_message s.stream ≡ false
      → has_message (ship_rounds rounds n t s).stream ≡ false
  unfolding ship_rounds
  never_sent zero n t s h p l a = a
  never_sent (suc rounds) n t s h p l a =
      never_sent rounds n t (ship_batch n t delivered true s).1 h p
        (rw (pending-round n t h p s) (All-drop n _ l))
        (rw (stream-round n t h p s) (
          has_message-append s.stream (messages (take n (pending t s.memory)))
          ∙ rw (a, Lacks-messages (take n (pending t s.memory)) (All-take _ n _ l))))

  -- An entry that is in the ledger, not behind the cursor, and not on the stream, does not come onto the stream
  -- in any number of rounds that do not fail.
  pub late_entry_skipped :
      (rounds n : ℕ) (t : Table) (s : Shipper) (r : LedgerEntry)
      → IsLedger t
      → 0 < n
      → find_row k t ≡ some r
      → is_after s.memory.last_ts s.memory.last_id r ≡ false
      → any (λ m. m.id == k) s.stream ≡ false
      → any (λ m. m.id == k) (ship_rounds rounds n t s).stream ≡ false
  late_entry_skipped rounds n t s r h p f b a =
      never_sent rounds n t s h p (pending-Lacks t s.memory r h f b) a
