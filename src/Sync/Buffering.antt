-- ===== src/Sync/Buffering.antt =====
-- What the lease of src/global_sync.py does for the buffer.
use ops_sentry.Prelude.{
  string_eq, nat_eq, ℕ, ◌+◌, ◌≤◌, String, ◌≡◌, refl, sym, ap, ◌∙◌, true, false, Option, none, some,
  List, [], ◌∷◌, ◌++◌, append_assoc, append-nil, map, All, Result, ok, err, ◌>>=◌, lookup,
  lookup-remove, beq_self,
}
use ops_sentry.Prelude.Json.{Json}
use ops_sentry.Ledger.Entry.{get_or}
use ops_sentry.Shield.Files.{
  LockRecord, Files, locked_by, Config, effective_ttl, fresh_record, release,
}
use ops_sentry.Shield.Leases.{play, IsForeign, acquire_once_free, lease_holds}
use ops_sentry.Shield.Waiting.{
  Local, Round, Waited, acquired, refused, acquire, acquire_rounds, deadline_of, is_over,
  release_node,
}
use ops_sentry.Shield.Patience.{IsEarly, acquire_waits}
use ops_sentry.Sync.{
  SyncEnvelope, to_record, Line, text, empty_line, garbled, SyncError, lock_error, Shared,
  SyncBuffer, Visit, Body, under_lock, with_lock, write_line, append, parse_lines, read_lines,
  read_all, unlink, clear,
}

-- A visit that nobody disturbs: in its first round nobody has just come and the files give no trouble, and what others do
-- before the lock is released neither comes after the lease nor forces a release.
pub record IsQuiet (b : SyncBuffer) (v : Visit) : Type 0 where
  pub first : Round
  pub more : List Round
  pub comes_first : v.rounds ≡ first ∷ more
  pub alone : first.others ≡ []
  pub calm : first.trouble ≡ none
  pub in_time :
      All
        (IsForeign
          (fresh_record b.shield.node b.resource_id (effective_ttl b.shield none) first.at))
        v.meanwhile

-- A free lock is had in the first round.
acquire_first :
    (b : SyncBuffer) (v : Visit) (q : IsQuiet b v) (files : Files) (l : Local)
    → lookup b.resource_id files ≡ none
    → ((acquire b.shield b.win32 b.resource_id none 15000 true v.started v.rounds files l).0
        ≡ acquired
            (fresh_record b.shield.node b.resource_id (effective_ttl b.shield none) q.first.at))
      × (lookup b.resource_id
            (acquire b.shield b.win32 b.resource_id none 15000 true v.started v.rounds files l).1
          ≡ some
              (fresh_record b.shield.node b.resource_id (effective_ttl b.shield none) q.first.at))
unfolding acquire acquire_rounds play
acquire_first b v q files l free =
    let f =
      acquire_once_free b.shield.node b.resource_id (effective_ttl b.shield none) q.first.at files
        (rw free refl) in
    rw (q.comes_first, q.alone, q.calm, f.0) (refl, f.1)

-- A node's own lock goes when it is released.
release_own :
    (c : Config) (path : String) (r : LockRecord) (now : ℕ) (files : Files) (l : Local)
    → r.node_id ≡ c.node
    → lookup path files ≡ some r
    → ((release_node c path false now files l).0 ≡ ok tt)
      × (lookup path (release_node c path false now files l).1 ≡ none)
unfolding release_node release
release_own c path r now files l own held =
    rw (held, own, beq_self c.node) (refl, lookup-remove path path files ∙ rw (beq_self path) refl)

module _ {A : Type 0} (b : SyncBuffer) (v : Visit) (body : Body A) (s : Shared) where
  -- Behind a lock that was had.
  under_lock_own :
      (r : LockRecord) (o : Waited × Files × Local)
      → r.node_id ≡ b.shield.node
      → o.0 ≡ acquired r
      → lookup b.resource_id o.1 ≡ some r
      → All (IsForeign r) v.meanwhile
      → ((under_lock b v body s.buffer o).0 ≡ (body s.buffer).0)
        × ((under_lock b v body s.buffer o).1.buffer ≡ (body s.buffer).1)
        × (lookup b.resource_id (under_lock b v body s.buffer o).1.files ≡ none)
  under_lock_own r (w, files, l) own e held foreign =
      let freed =
        release_own b.shield b.resource_id r v.released_at (play v.meanwhile files) l own
          (lease_holds b.resource_id r v.meanwhile files held foreign) in
      rw e (rw freed.0 refl, refl, freed.1)

  -- Undisturbed, a call does what its body does, and leaves the lock free, also where the body raises.
  with_lock_quiet :
      IsQuiet b v
      → lookup b.resource_id s.files ≡ none
      → ((with_lock b v body s).0 ≡ (body s.buffer).0)
        × ((with_lock b v body s).1.buffer ≡ (body s.buffer).1)
        × (lookup b.resource_id (with_lock b v body s).1.files ≡ none)
  unfolding with_lock
  with_lock_quiet q free =
      let f = acquire_first b v q s.files s.local free in
      under_lock_own
        (fresh_record b.shield.node b.resource_id (effective_ttl b.shield none) q.first.at)
        (acquire b.shield b.win32 b.resource_id none 15000 true v.started v.rounds s.files s.local)
        refl f.0 f.1 q.in_time

  -- Behind a refusal.
  under_lock_keeps_out :
      (held : LockRecord) (o : Waited × Files × Local)
      → o.0 ≡ refused (locked_by held.node_id)
      → lookup b.resource_id o.1 ≡ some held
      → ((under_lock b v body s.buffer o).0 ≡ err (lock_error (locked_by held.node_id)))
        × ((under_lock b v body s.buffer o).1.buffer ≡ s.buffer)
        × (lookup b.resource_id (under_lock b v body s.buffer o).1.files ≡ some held)
  under_lock_keeps_out held (w, files, l) e h = rw e (refl, refl, h)

-- A visit to a buffer whose lock another node holds: the 15 seconds are over before the lease ends.
pub record IsKeptOut (b : SyncBuffer) (held : LockRecord) (v : Visit) : Type 0 where
  pub early : List Round
  pub last : Round
  pub more : List Round
  pub all : v.rounds ≡ early ++ last ∷ more
  pub waits : All (IsEarly b.win32 (deadline_of v.started 15000) held) early
  pub foreign : All (IsForeign held) last.others
  pub calm : last.trouble ≡ none
  pub before : last.at ≤ held.heartbeat_at + held.ttl_ms
  pub over : is_over (deadline_of v.started 15000) last.checked ≡ true

with_lock_kept_out :
    {A : Type 0} (b : SyncBuffer) (held : LockRecord) (v : Visit) (body : Body A) (s : Shared)
    → lookup b.resource_id s.files ≡ some held
    → IsKeptOut b held v
    → ((with_lock b v body s).0 ≡ err (lock_error (locked_by held.node_id)))
      × ((with_lock b v body s).1.buffer ≡ s.buffer)
      × (lookup b.resource_id (with_lock b v body s).1.files ≡ some held)
unfolding with_lock
with_lock_kept_out b held v body s h k =
    let w =
      acquire_waits b.shield b.win32 b.resource_id none 15000 true v.started held k.early k.last
        k.more s.files s.local h k.waits k.foreign k.calm in
    let e = w.1 k.before k.over in
    under_lock_keeps_out b v body s held
      (acquire b.shield b.win32 b.resource_id none 15000 true v.started v.rounds s.files s.local)
      (rw k.all e.0) (rw k.all e.1)

-- As long as another node holds the lease of the buffer, append, read_all and clear wait their 15 seconds and raise that this
-- node has it; the buffer and the lease stay as they are.
pub kept_out :
    (b : SyncBuffer) (held : LockRecord) (v : Visit) (e : SyncEnvelope) (s : Shared)
    → lookup b.resource_id s.files ≡ some held
    → IsKeptOut b held v
    → (((append b v e s).0 ≡ err (lock_error (locked_by held.node_id)))
        × ((append b v e s).1.buffer ≡ s.buffer)
        × (lookup b.resource_id (append b v e s).1.files ≡ some held))
      × (((read_all b v s).0 ≡ err (lock_error (locked_by held.node_id)))
          × ((read_all b v s).1.buffer ≡ s.buffer)
          × (lookup b.resource_id (read_all b v s).1.files ≡ some held))
      × (((clear b v s).0 ≡ err (lock_error (locked_by held.node_id)))
          × ((clear b v s).1.buffer ≡ s.buffer)
          × (lookup b.resource_id (clear b v s).1.files ≡ some held))
unfolding append read_all clear
kept_out b held v e s h k = (
  with_lock_kept_out b held v (write_line v.trouble e) s h k,
  with_lock_kept_out b held v (read_lines v.trouble) s h k,
  with_lock_kept_out b held v (unlink v.trouble) s h k,
)

-- Appends, each on a visit of its own.
unfoldable pub append_all : SyncBuffer → List (Visit × SyncEnvelope) → Shared → Shared
append_all b [] s = s
append_all b ((v, e) ∷ rest) s = append_all b rest (append b v e s).1

abbrev pub IsWritten : SyncBuffer → Visit × SyncEnvelope → Type 0
IsWritten b x = IsQuiet b x.0 × (x.0.trouble ≡ none)

written :
    (t : Option String) (e : SyncEnvelope) (file : Option (List Line))
    → t ≡ none
    → get_or (write_line t e file).1 [] ≡ get_or file [] ++ text (to_record e) ∷ []
written t e file h = rw h refl

append_all_lem :
    (b : SyncBuffer) (xs : List (Visit × SyncEnvelope)) (s : Shared)
    → lookup b.resource_id s.files ≡ none
    → All (IsWritten b) xs
    → (lookup b.resource_id (append_all b xs s).files ≡ none)
      × (get_or (append_all b xs s).buffer []
          ≡ get_or s.buffer [] ++ map (λ x. text (to_record x.1)) xs)
unfolding append_all append
append_all_lem b [] s free w = (free, sym (append-nil (get_or s.buffer [])))
append_all_lem b ((v, e) ∷ rest) s free w =
    let q = with_lock_quiet b v (write_line v.trouble e) s w.0.0 free in
    let r = append_all_lem b rest (with_lock b v (write_line v.trouble e) s).1 q.2 w.1 in
    (
      r.0,
      r.1
          ∙ ap (λ x. x ++ map (λ y. text (to_record y.1)) rest)
              (ap (λ x. get_or x []) q.1 ∙ written v.trouble e s.buffer w.0.1)
          ∙ append_assoc (get_or s.buffer []) (text (to_record e) ∷ [])
              (map (λ y. text (to_record y.1)) rest),
    )

module _ (xs : List (Visit × SyncEnvelope)) where
  parse_lines-written :
      (ys : List (Visit × SyncEnvelope))
      → parse_lines (map (λ x. text (to_record x.1)) ys) ≡ ok (map (λ x. to_record x.1) ys)
  unfolding parse_lines
  parse_lines-written [] = refl
  parse_lines-written (y ∷ ys) = rw (parse_lines-written ys) refl

  -- Old lines are parsed as before, and raise as before.
  parse_lines-append :
      (lines : List Line)
      → parse_lines (lines ++ map (λ x. text (to_record x.1)) xs)
        ≡ (parse_lines lines >>= λ js. ok (js ++ map (λ x. to_record x.1) xs))
  unfolding parse_lines
  parse_lines-append [] = parse_lines-written xs
  parse_lines-append (text j ∷ lines) = rw (parse_lines-append lines) (regroup (parse_lines lines))
    where
      regroup :
          (r : Result SyncError (List Json))
          → ((r >>= λ js. ok (js ++ map (λ x. to_record x.1) xs)) >>= λ js. ok (j ∷ js))
            ≡ ((r >>= λ js. ok (j ∷ js)) >>= λ js. ok (js ++ map (λ x. to_record x.1) xs))
      regroup (ok js) = refl
      regroup (err e) = refl
  parse_lines-append (empty_line ∷ lines) = parse_lines-append lines
  parse_lines-append (garbled ∷ lines) = refl

read_lines_lem :
    (t : Option String) (file : Option (List Line))
    → t ≡ none
    → ((read_lines t file).0 ≡ parse_lines (get_or file [])) × ((read_lines t file).1 ≡ file)
unfolding parse_lines
read_lines_lem t none h = (refl, refl)
read_lines_lem t (some lines) h = rw h (refl, refl)

-- Envelopes that are appended, each undisturbed, to a buffer whose lock is free are read back in their order behind what was
-- there, which raises as it did before if it cannot be parsed; the lock is free again, and the reading changes nothing.
pub read_all-append_all :
    (b : SyncBuffer) (xs : List (Visit × SyncEnvelope)) (v : Visit) (s : Shared)
    → lookup b.resource_id s.files ≡ none
    → All (IsWritten b) xs
    → IsQuiet b v
    → v.trouble ≡ none
    → ((read_all b v (append_all b xs s)).0
        ≡ (parse_lines (get_or s.buffer []) >>= λ js. ok (js ++ map (λ x. to_record x.1) xs)))
      × ((read_all b v (append_all b xs s)).1.buffer ≡ (append_all b xs s).buffer)
      × (lookup b.resource_id (read_all b v (append_all b xs s)).1.files ≡ none)
unfolding read_all
read_all-append_all b xs v s free w quiet calm =
    let a = append_all_lem b xs s free w in
    let r = with_lock_quiet b v (read_lines v.trouble) (append_all b xs s) quiet a.0 in
    let t = read_lines_lem v.trouble (append_all b xs s).buffer calm in
    (r.0 ∙ t.0 ∙ ap parse_lines a.1 ∙ parse_lines-append xs (get_or s.buffer []), r.1 ∙ t.1, r.2)
