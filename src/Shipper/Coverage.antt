-- ===== src/Shipper/Coverage.antt =====
-- No entry that src/cluster/shipper.py passes over is lost: failures of Redis and of the checkpoint file,
-- and restarts, in any order.
use ops_sentry.Prelude.{
  string_eq, ℕ, ◌≡◌, refl, true, false, Bool, List, [], ◌∷◌, ◌++◌, arith, ◌∙◌, ap, sym, map, All,
  ok, take, drop, get_last?, ◌⊎◌, inl, inr, any, ◌==◌, take-append-drop, All-append, All-map_of,
  All-both, All-of-filter, filter_holds, beq_self,
}
use ops_sentry.Prelude.Sorting.{All-of-sort}
use mathlib.Core.Path.{subst}
use ops_sentry.Ledger.Entry.{LedgerEntry}
use ops_sentry.Ledger.Storage.{Table, is_after, earlier}
use ops_sentry.Ledger.Spec.{IsLedger, as_read}
use ops_sentry.Ledger.Cursor.{in_order, get_incremental-eq, next_batch}
use ops_sentry.Shipper.{
  Shipper, Cursor, Message, Delivery, delivered, broken, cursor_of, payload, ship_batch, ship, push,
  save_checkpoint, restart, cursor_at,
}
use ops_sentry.Shipper.Batches.{pending, messages, last_of, get_last?-map-as_read, get_last?-cons}

-- The entry's message stands on the stream.
abbrev pub IsShipped : List Message → LedgerEntry → Type 0
IsShipped stream r = any (λ m. m.id == r.id) stream ≡ true

-- Each entry is behind the cursor, to be shipped, or on the stream.
abbrev pub Covers : Cursor → List Message → Table → Type 0
Covers c stream t = All (λ r. (is_after c.last_ts c.last_id r ≡ true) ⊎ IsShipped stream r) t

-- Both the cursor in memory and the one that a restart goes back to.
pub record IsCovered (t : Table) (s : Shipper) : Type 0 where
  pub memory : Covers s.memory s.stream t
  pub file : Covers (cursor_of s.file) s.stream t

-- What can happen between two looks at the stream: a batch, however it ends, or a restart.
pub data Event : Type 0 where
  batch : Delivery → Bool → Event
  reboot : Event

unfoldable pub happen : ℕ → Table → Event → Shipper → Shipper
happen n t (batch net writable) s = (ship_batch n t net writable s).1
happen n t reboot s = restart s

unfoldable pub happen_all : ℕ → Table → List Event → Shipper → Shipper
unfolding happen
happen_all n t [] s = s
happen_all n t (e ∷ es) s = happen_all n t es (happen n t e s)

any-append : (p : Message → Bool) (xs ys : List Message) → any p xs ≡ true → any p (xs ++ ys) ≡ true
any-append p [] ys h = cc
any-append p (x ∷ xs) ys h = ground (arith, any-append p xs ys)

any-append_right :
    (p : Message → Bool) (xs ys : List Message) → any p ys ≡ true → any p (xs ++ ys) ≡ true
any-append_right p [] ys h = h
any-append_right p (x ∷ xs) ys h = ground (arith, any-append_right p xs ys h)

-- A longer stream covers as much.
Covers-append :
    (c : Cursor) (ms ns : List Message) (t : Table) → Covers c ms t → Covers c (ms ++ ns) t
Covers-append c ms ns t h =
    All-map_of _ _
      (λ r. elim [ inl a ↦ inl a | inr b ↦ inr (any-append (λ m. m.id == r.id) ms ns b) ]) t h

-- The messages of entries ship those entries.
All-IsShipped : (es : List LedgerEntry) → All (IsShipped (messages es)) es
unfolding payload
All-IsShipped [] = tt
All-IsShipped (e ∷ es) = (
  rw (beq_self e.id),
  All-map_of _ _
      (λ r. any-append_right (λ m. m.id == r.id) (payload (as_read e) ∷ []) (messages es)) es
      (All-IsShipped es),
)

module _ (n : ℕ) (t : Table) (h : IsLedger t) (c : Cursor) (ms : List Message) (y : LedgerEntry)
    (ys : List LedgerEntry) (e : take n (pending t c) ≡ y ∷ ys) where
  abbrev new_cursor : Cursor
  new_cursor = cursor_at (last_of y ys)

  abbrev stream : List Message
  stream = ms ++ messages (y ∷ ys)

  abbrev Settled : LedgerEntry → Type 0
  Settled r = (is_after new_cursor.last_ts new_cursor.last_id r ≡ true) ⊎ IsShipped stream r

  batch-Settled : All Settled (take n (pending t c))
  batch-Settled = rw e (
      All-map_of _ _ (λ r b. inr (any-append_right (λ m. m.id == r.id) ms (messages (y ∷ ys)) b))
        (y ∷ ys) (All-IsShipped (y ∷ ys)))

  rest-Settled : All Settled (drop n (pending t c))
  unfolding pending
  rest-Settled =
      subst (All Settled)
        (next_batch c.last_ts c.last_id n t (last_of y ys) h (ap get_last? e ∙ get_last?-cons y ys))
        (All-map_of _ _ (λ r a. inl a) _
          (filter_holds (is_after new_cursor.last_ts new_cursor.last_id) (in_order t)))

  pending-Settled : All (λ r. is_after c.last_ts c.last_id r ≡ true → Settled r) t
  unfolding pending in_order
  pending-Settled = All-of-sort earlier _ t (
      All-of-filter Settled (is_after c.last_ts c.last_id) (in_order t) (
        subst (All Settled) (take-append-drop n (pending t c)) (
          All-append Settled (take n (pending t c)) (drop n (pending t c)) batch-Settled
            rest-Settled)))

  settle :
      (r : LedgerEntry)
      → ((is_after c.last_ts c.last_id r ≡ true) ⊎ IsShipped ms r)
        × (is_after c.last_ts c.last_id r ≡ true → Settled r)
      → Settled r
  settle r (inl a, f) = f a
  settle r (inr b, f) = inr (any-append (λ m. m.id == r.id) ms (messages (y ∷ ys)) b)

  -- The cursor may go on to the end of what was written.
  pub Covers-next : Covers c ms t → Covers new_cursor stream t
  Covers-next k = All-map_of _ _ settle t (All-both _ _ t k pending-Settled)

module _ (n : ℕ) (t : Table) (h : IsLedger t) (s : Shipper) (k : IsCovered t s) where
  after_ship :
      (net : Delivery) (writable : Bool) (es : List LedgerEntry)
      → take n (pending t s.memory) ≡ es
      → IsCovered t (ship net writable (ok (map as_read es)) s).1
  unfolding push save_checkpoint
  after_ship net writable [] e = k
  after_ship (broken m) writable (y ∷ ys) e = record {
    memory = Covers-append s.memory s.stream _ t k.memory;
    file = Covers-append (cursor_of s.file) s.stream _ t k.file;
  }
  after_ship delivered true (y ∷ ys) e =
      let w = Covers-next n t h s.memory s.stream y ys e k.memory in
      rw (get_last?-map-as_read y ys) (record { memory = w; file = w })
  after_ship delivered false (y ∷ ys) e =
      let w = Covers-next n t h s.memory s.stream y ys e k.memory in
      rw (get_last?-map-as_read y ys)
        (record { memory = w; file = Covers-append (cursor_of s.file) s.stream _ t k.file })

  happen-IsCovered : (e : Event) → IsCovered t (happen n t e s)
  unfolding happen ship_batch restart
  happen-IsCovered (batch net writable) =
      subst (λ r. IsCovered t (ship net writable r s).1)
        (sym (get_incremental-eq s.memory.last_ts s.memory.last_id n t h))
        (unfold pending in after_ship net writable _ refl)
  happen-IsCovered reboot = record { memory = k.file; file = k.file }

-- No entry is lost: over a ledger that does not change, whatever Redis and the checkpoint file do to each batch and
-- wherever the process starts again, an entry that the cursor has passed is on the stream. This
-- holds of the cursor in memory and of the one in the file.
pub happen_all-IsCovered :
    (n : ℕ) (t : Table) (es : List Event) (s : Shipper)
    → IsLedger t
    → IsCovered t s
    → IsCovered t (happen_all n t es s)
unfolding happen_all
happen_all-IsCovered n t [] s h k = k
happen_all-IsCovered n t (e ∷ es) s h k =
    happen_all-IsCovered n t es (happen n t e s) h (happen-IsCovered n t h s k e)
