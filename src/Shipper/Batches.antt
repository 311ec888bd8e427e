-- ===== src/Shipper/Batches.antt =====
-- What a batch of src/cluster/shipper.py ships, and that rounds without a failure ship everything once.
use ops_sentry.Prelude.{
  string_eq, ℕ, zero, suc, ◌*◌, ◌≤◌, ◌<◌, append-nil, append_assoc, take-append-drop, length-drop,
  ◌≡◌, refl, true, List, [], ◌∷◌, ◌++◌, arith, ◌∙◌, ap, sym, map, ok, take, drop, filter, length,
  get_last?, some,
}
use ops_sentry.Ledger.Entry.{LedgerEntry}
use ops_sentry.Ledger.Storage.{Table, is_after}
use ops_sentry.Ledger.Spec.{IsLedger, as_read}
use ops_sentry.Ledger.Cursor.{in_order, get_incremental-eq, next_batch}
use ops_sentry.Shipper.{Shipper, Cursor, Message, payload, ship_batch, ship, push, delivered}

-- The entries behind the cursor, in order.
unfoldable pub pending : Table → Cursor → List LedgerEntry
pending t c = filter (is_after c.last_ts c.last_id) (in_order t)

-- Their messages.
abbrev pub messages : List LedgerEntry → List Message
messages es = map payload (map as_read es)

-- The last entry of a non-empty list, and the same of what a reader gets.
abbrev pub last_of : LedgerEntry → List LedgerEntry → LedgerEntry
last_of y [] = y
last_of y (z ∷ zs) = last_of z zs

pub get_last?-cons :
    (y : LedgerEntry) (ys : List LedgerEntry) → get_last? (y ∷ ys) ≡ some (last_of y ys)
get_last?-cons y [] = refl
get_last?-cons y (z ∷ zs) = get_last?-cons z zs

pub get_last?-map-as_read :
    (y : LedgerEntry) (ys : List LedgerEntry)
    → get_last? (map as_read (y ∷ ys)) ≡ some (as_read (last_of y ys))
get_last?-map-as_read y [] = refl
get_last?-map-as_read y (z ∷ zs) = get_last?-map-as_read z zs

length-map-as_read : (es : List LedgerEntry) → length (map as_read es) ≡ length es
length-map-as_read [] = refl
length-map-as_read (e ∷ es) = ap suc (length-map-as_read es)

messages-append : (xs ys : List LedgerEntry) → messages (xs ++ ys) ≡ messages xs ++ messages ys
messages-append [] ys = refl
messages-append (x ∷ xs) ys = ap (λ ms. payload (as_read x) ∷ ms) (messages-append xs ys)

nil_of_length : (es : List LedgerEntry) → length es ≤ 0 → es ≡ []
nil_of_length [] l = refl
nil_of_length (x ∷ es) l = absurd (omega arith)

no_batch : (n : ℕ) (es : List LedgerEntry) → 0 < n → [] ≡ take n es → es ≡ drop n es
no_batch zero es p e = elim p [ ]
no_batch (suc n) [] p e = refl
no_batch (suc n) (x ∷ es) p e = cc

-- The state after a batch that nothing interrupts.
abbrev shipped_to : List LedgerEntry → Shipper → Shipper
shipped_to [] s = s
shipped_to (y ∷ ys) s = record {
  memory = record { last_ts = (last_of y ys).created_at; last_id = (last_of y ys).id };
  file = some (record { last_ts = (last_of y ys).created_at; last_id = (last_of y ys).id });
  stream = s.stream ++ map payload (map as_read (y ∷ ys));
}

push_lem :
    (y : LedgerEntry) (ys : List LedgerEntry) (s : Shipper)
    → push delivered true (map as_read (y ∷ ys)) s ≡ (ok (length (y ∷ ys)), shipped_to (y ∷ ys) s)
unfolding push
push_lem y ys s = rw (get_last?-map-as_read y ys, length-map-as_read ys)

module _ (n : ℕ) (t : Table) (h : IsLedger t) (s : Shipper) where
  abbrev batch : List LedgerEntry
  batch = take n (pending t s.memory)

  ship_batch-eq : ship_batch n t delivered true s ≡ (ok (length batch), shipped_to batch s)
  unfolding ship_batch pending
  ship_batch-eq = rw (get_incremental-eq s.memory.last_ts s.memory.last_id n t h) (by_batch batch)
    where
      by_batch :
          (es : List LedgerEntry)
          → ship delivered true (ok (map as_read es)) s ≡ (ok (length es), shipped_to es s)
      by_batch [] = refl
      by_batch (y ∷ ys) = push_lem y ys s

  stream-shipped_to : (es : List LedgerEntry) → (shipped_to es s).stream ≡ s.stream ++ messages es
  stream-shipped_to [] = sym (append-nil s.stream)
  stream-shipped_to (y ∷ ys) = refl

  pending-shipped_to :
      (es : List LedgerEntry)
      → es ≡ batch
      → 0 < n
      → pending t (shipped_to es s).memory ≡ drop n (pending t s.memory)
  unfolding pending
  pending-shipped_to [] e p = no_batch n _ p e
  pending-shipped_to (y ∷ ys) e p =
      next_batch s.memory.last_ts s.memory.last_id n t (last_of y ys) h
        (ap get_last? (sym e) ∙ get_last?-cons y ys)

-- n rounds with neither a failure of Redis nor of the file.
unfoldable pub ship_rounds : ℕ → ℕ → Table → Shipper → Shipper
ship_rounds zero n t s = s
ship_rounds (suc k) n t s = ship_rounds k n t (ship_batch n t delivered true s).1

module _ (n : ℕ) (t : Table) (h : IsLedger t) (p : 0 < n) where
  pub stream-round :
      (s : Shipper)
      → (ship_batch n t delivered true s).1.stream
        ≡ s.stream ++ messages (take n (pending t s.memory))
  stream-round s = rw (ship_batch-eq n t h s) (stream-shipped_to n t h s (batch n t h s))

  pub pending-round :
      (s : Shipper)
      → pending t (ship_batch n t delivered true s).1.memory ≡ drop n (pending t s.memory)
  pending-round s = rw (ship_batch-eq n t h s) (pending-shipped_to n t h s (batch n t h s) refl p)

  shorter :
      (k : ℕ) (s : Shipper)
      → length (pending t s.memory) ≤ suc k * n
      → length (pending t (ship_batch n t delivered true s).1.memory) ≤ k * n
  shorter k s l = rw (pending-round s) (omega (arith, length-drop n (pending t s.memory)))

  joined :
      (s : Shipper)
      → (s.stream ++ messages (take n (pending t s.memory)))
          ++ messages (drop n (pending t s.memory))
        ≡ s.stream ++ messages (pending t s.memory)
  joined s =
      append_assoc s.stream _ _
      ∙ ap (λ ms. s.stream ++ ms)
          (sym (messages-append (take n (pending t s.memory)) (drop n (pending t s.memory)))
            ∙ ap messages (take-append-drop n (pending t s.memory)))

  -- Over a ledger that does not change, rounds that do not fail write the messages of the entries behind the
  -- cursor, each exactly once and in the order of creation time and id, and leave none behind it.
  pub ship_rounds_drain :
      (k : ℕ) (s : Shipper)
      → length (pending t s.memory) ≤ k * n
      → ((ship_rounds k n t s).stream ≡ s.stream ++ messages (pending t s.memory))
        × (pending t (ship_rounds k n t s).memory ≡ [])
  unfolding ship_rounds
  ship_rounds_drain zero s l =
      let e = nil_of_length (pending t s.memory) (omega arith) in
      (rw e (sym (append-nil s.stream)), e)
  ship_rounds_drain (suc k) s l =
      let s' = (ship_batch n t delivered true s).1 in
      let ih = ship_rounds_drain k s' (shorter k s l) in
      (ih.0 ∙ rw (stream-round s, pending-round s) (joined s), ih.1)
