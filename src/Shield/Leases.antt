-- ===== src/Shield/Leases.antt =====
-- What a lease in a lock file of src/config_shield.py protects against, and until when.
use ops_sentry.Prelude.{
  string_eq, ℕ, ◌+◌, ◌≤◌, String, ◌≡◌, ◌≢◌, refl, Bool, true, false, Option, none, some, List, [],
  ◌∷◌, Result, ok, err, lookup, insert, remove, lookup-insert, lookup-remove, ltb, ◌==◌,
  if◌then◌else◌, arith, eq_iff, beq_self, beq_of_ne, All, ◌∙◌, Bool-cases, ap, subst, sym, inl, inr,
  Option-cases,
}
use ops_sentry.Shield.Files.{
  LockRecord, Files, Config, LockError, effective_ttl, is_stale, fresh_record, reclaim, read_back,
  acquire_once, heartbeat, refreshed, release, locked_by, owned_by_another,
}

-- One call of a shield on a resource, with its time.
pub data Call : Type 0 where
  acquires : String → Option ℕ → Call
  heartbeats : String → Option ℕ → Call
  releases : String → Bool → Call

pub record Event : Type 0 where
  pub shield : Config
  pub at : ℕ
  pub call : Call

unfoldable pub dispatch : Config → ℕ → Call → Files → Files
dispatch c now (acquires path ttl) files =
    (acquire_once c.node path (effective_ttl c ttl) now files).1
dispatch c now (heartbeats path ttl) files = (heartbeat c path ttl now files).1
dispatch c now (releases path force) files = (release c path force now files).1

unfoldable pub play : List Event → Files → Files
unfolding dispatch
play [] files = files
play (e ∷ es) files = play es (dispatch e.shield e.at e.call files)

-- The call does not force a release.
abbrev pub IsPolite : Call → Type 0
IsPolite (releases path force) = force ≡ false
IsPolite (acquires path ttl) = Unit
IsPolite (heartbeats path ttl) = Unit

-- Where the file that was renamed away is gone, the new one is read back.
reclaim_lem :
    (r : LockRecord) (files : Files)
    → reclaim r files ≡ (ok r, insert r.resource_path r (remove r.resource_path files))
unfolding reclaim
reclaim_lem r files =
    ap (read_back r (insert r.resource_path r (remove r.resource_path files))) {y = some r} (
      lookup-insert r.resource_path r.resource_path r (remove r.resource_path files)
      ∙ rw (beq_self r.resource_path) refl)
    ∙ rw (beq_self r.node_id) refl

module _ (path p : String) (n : p ≢ path) (files : Files) where
  reclaim_frame :
      (r : LockRecord)
      → r.resource_path ≢ path
      → lookup path (reclaim r files).1 ≡ lookup path files
  reclaim_frame r m =
      ap (λ s. lookup path s.1) (reclaim_lem r files)
      ∙ lookup-insert r.resource_path path r (remove r.resource_path files)
      ∙ rw
          (
            beq_of_ne r.resource_path path m,
            lookup-remove r.resource_path path files,
            beq_of_ne r.resource_path path m,
          )
          refl

  acquire_frame :
      (node : String) (ttl now : ℕ)
      → lookup path (acquire_once node p ttl now files).1 ≡ lookup path files
  unfolding acquire_once
  acquire_frame node ttl now = ground (
    arith,
    lookup-insert p path (fresh_record node p ttl now) files,
    beq_of_ne p path n,
    reclaim_frame (fresh_record node p ttl now) n,
  )

  heartbeat_frame :
      (c : Config) (ttl : Option ℕ) (now : ℕ)
      → lookup path (heartbeat c p ttl now files).1 ≡ lookup path files
  unfolding heartbeat
  heartbeat_frame c ttl now = elim (Option-cases (lookup p files)) [
    | inl a ↦ rw a
    | inr (r, f) ↦ rw f (
        ground (
          arith,
          lookup-insert p path (refreshed c.node p (effective_ttl c ttl) now r) files,
          beq_of_ne p path n,
        ))
  ]

  release_frame :
      (c : Config) (force : Bool) (now : ℕ)
      → lookup path (release c p force now files).1 ≡ lookup path files
  unfolding release
  release_frame c force now = ground (arith, lookup-remove p path files, beq_of_ne p path n)

-- On the resource itself, while the lease runs.
module _ (path : String) (r : LockRecord) (files : Files) (held : lookup path files ≡ some r)
    (now : ℕ) (l : now ≤ r.heartbeat_at + r.ttl_ms) where
  pub acquire_held :
      (node : String) (ttl : ℕ)
      → acquire_once node path ttl now files ≡ (err (locked_by r.node_id), files)
  unfolding acquire_once is_stale
  acquire_held node ttl = rw held (ground arith)

  heartbeat_held :
      (c : Config) (ttl : Option ℕ)
      → c.node ≢ r.node_id
      → heartbeat c path ttl now files ≡ (err owned_by_another, files)
  unfolding heartbeat is_stale
  heartbeat_held c ttl n = rw held (ground (arith, eq_iff r.node_id c.node))

  release_held :
      (c : Config)
      → c.node ≢ r.node_id
      → release c path false now files ≡ (err owned_by_another, files)
  unfolding release is_stale
  release_held c n = rw held (ground (arith, eq_iff r.node_id c.node))

-- A call that another node makes before the lease ends, and that forces nothing.
abbrev pub IsForeign : LockRecord → Event → Type 0
IsForeign r e = (e.shield.node ≢ r.node_id) × (e.at ≤ r.heartbeat_at + r.ttl_ms) × IsPolite e.call

module _ (path : String) (r : LockRecord) (files : Files) (held : lookup path files ≡ some r) where
  dispatch_foreign :
      (c : Config) (now : ℕ) (call : Call)
      → c.node ≢ r.node_id
      → now ≤ r.heartbeat_at + r.ttl_ms
      → IsPolite call
      → lookup path (dispatch c now call files) ≡ some r
  unfolding dispatch
  dispatch_foreign c now (acquires p ttl) n l w = elim (Bool-cases (p == path)) [
    | inl e ↦
        subst (λ q. lookup path (acquire_once c.node q (effective_ttl c ttl) now files).1 ≡ some r)
          (sym ((eq_iff p path).0 e))
          (ap (λ s. lookup path s.1)
              (acquire_held path r files held now l c.node (effective_ttl c ttl))
            ∙ held)
    | inr d ↦
        acquire_frame path p (λ e. cc (d, (eq_iff p path).1 e)) files c.node (effective_ttl c ttl)
          now
        ∙ held
  ]
  dispatch_foreign c now (heartbeats p ttl) n l w = elim (Bool-cases (p == path)) [
    | inl e ↦
        subst (λ q. lookup path (heartbeat c q ttl now files).1 ≡ some r)
          (sym ((eq_iff p path).0 e))
          (ap (λ s. lookup path s.1) (heartbeat_held path r files held now l c ttl n) ∙ held)
    | inr d ↦ heartbeat_frame path p (λ e. cc (d, (eq_iff p path).1 e)) files c ttl now ∙ held
  ]
  dispatch_foreign c now (releases p force) n l w = elim (Bool-cases (p == path)) [
    | inl e ↦
        subst (λ q. lookup path (release c q force now files).1 ≡ some r)
          (sym ((eq_iff p path).0 e))
          (subst (λ f. lookup path (release c path f now files).1 ≡ some r) (sym w)
            (ap (λ s. lookup path s.1) (release_held path r files held now l c n) ∙ held))
    | inr d ↦ release_frame path p (λ e. cc (d, (eq_iff p path).1 e)) files c force now ∙ held
  ]

-- A lease holds: until its heartbeat is older than its time to live, no sequence of uninterrupted calls by
-- other nodes, on this and any other resource, changes its record, unless one of them forces a release.
pub lease_holds :
    (path : String) (r : LockRecord) (es : List Event) (files : Files)
    → lookup path files ≡ some r
    → All (IsForeign r) es
    → lookup path (play es files) ≡ some r
unfolding play
lease_holds path r [] files held w = held
lease_holds path r (e ∷ es) files held w =
    lease_holds path r es (dispatch e.shield e.at e.call files)
      (dispatch_foreign path r files held e.shield e.at e.call w.0.0 w.0.1 w.0.2) w.1

-- Whether a resource can be had: there is no record, or one whose lease has run out.
abbrev pub free_at : ℕ → Option LockRecord → Bool
free_at now none = true
free_at now (some r) = ltb (r.heartbeat_at + r.ttl_ms) now

module _ (node path : String) (ttl now : ℕ) (files : Files) where
  pub acquire_once_free :
      free_at now (lookup path files) ≡ true
      → (acquire_once node path ttl now files).0 ≡ ok (fresh_record node path ttl now)
        × (lookup path (acquire_once node path ttl now files).1
            ≡ some (fresh_record node path ttl now))
  unfolding acquire_once is_stale
  acquire_once_free h = elim (Option-cases (lookup path files)) [
    | inl a ↦ rw a (refl, lookup-insert path path _ files ∙ rw (beq_self path))
    | inr (r, f) ↦
        rw (f, rw f at h, reclaim_lem (fresh_record node path ttl now) files)
          (refl, lookup-insert path path _ (remove path files) ∙ rw (beq_self path))
  ]

  acquire_once_taken :
      free_at now (lookup path files) ≡ false
      → (r : LockRecord) × (lookup path files ≡ some r)
        × (acquire_once node path ttl now files ≡ (err (locked_by r.node_id), files))
  unfolding acquire_once is_stale
  acquire_once_taken h = elim (Option-cases (lookup path files)) [
    | inl a ↦ cc (rw a at h)
    | inr (r, f) ↦ (r, f, rw (f, rw f at h))
  ]

-- What an acquisition means: a resource that is free gets a new record, and otherwise its holder is named.
abbrev pub acquire_outcome :
    String → String → ℕ → ℕ → Option LockRecord → Result LockError LockRecord × Option LockRecord
acquire_outcome node path ttl now none =
    (ok (fresh_record node path ttl now), some (fresh_record node path ttl now))
acquire_outcome node path ttl now (some r) =
    if ltb (r.heartbeat_at + r.ttl_ms) now
    then (ok (fresh_record node path ttl now), some (fresh_record node path ttl now))
    else (err (locked_by r.node_id), some r)

-- An uninterrupted attempt creates the lock or takes a stale one over, and then the record of the resource is the
-- one it returns; where the lease still runs it raises, naming the holder, and the record stays.
-- The record of no other resource changes.
pub acquire_once_lem :
    (node path : String) (ttl now : ℕ) (files : Files) (other : String)
    → path ≢ other
    → ((acquire_once node path ttl now files).0
        ≡ (acquire_outcome node path ttl now (lookup path files)).0)
      × (lookup path (acquire_once node path ttl now files).1
          ≡ (acquire_outcome node path ttl now (lookup path files)).1)
      × (lookup other (acquire_once node path ttl now files).1 ≡ lookup other files)
acquire_once_lem node path ttl now files other n =
    elim (Bool-cases (free_at now (lookup path files))) [
      | inl a ↦
          let f = acquire_once_free node path ttl now files a in
          let w = free_outcome (lookup path files) a in
          (
            f.0 ∙ sym (ap (λ s. s.0) w),
            f.1 ∙ sym (ap (λ s. s.1) w),
            acquire_frame other path n files node ttl now,
          )
      | inr b ↦
          let t = acquire_once_taken node path ttl now files b in
          let w =
            ap (acquire_outcome node path ttl now) t.1
            ∙ taken_outcome t.0 (ap (free_at now) (sym t.1) ∙ b) in
          (
            ap (λ s. s.0) t.2 ∙ sym (ap (λ s. s.0) w),
            ap (λ s. lookup path s.1) t.2 ∙ t.1 ∙ sym (ap (λ s. s.1) w),
            acquire_frame other path n files node ttl now,
          )
    ]
  where
    free_outcome :
        (o : Option LockRecord)
        → free_at now o ≡ true
        → acquire_outcome node path ttl now o
          ≡ (ok (fresh_record node path ttl now), some (fresh_record node path ttl now))
    free_outcome none h = refl
    free_outcome (some r) h = rw h

    taken_outcome :
        (r : LockRecord)
        → free_at now (some r) ≡ false
        → acquire_outcome node path ttl now (some r) ≡ (err (locked_by r.node_id), some r)
    taken_outcome r h = rw h

-- A resource that was had.
pub acquired_free :
    (node path : String) (ttl now : ℕ) (files : Files) (r : LockRecord)
    → (acquire_once node path ttl now files).0 ≡ ok r
    → r ≡ fresh_record node path ttl now
      × (lookup path (acquire_once node path ttl now files).1
          ≡ some (fresh_record node path ttl now))
acquired_free node path ttl now files r e = elim (Bool-cases (free_at now (lookup path files))) [
  | inl a ↦ let f = acquire_once_free node path ttl now files a in (cc (f.0, e), f.1)
  | inr b ↦ let t = acquire_once_taken node path ttl now files b in cc (ap (λ s. s.0) t.2, e)
]

-- A resource is held by one node at a time: after a node has acquired it, and whatever other nodes then do to any
-- resource before the lease ends, short of forcing a release, another node's attempt before that end
-- raises that the first node holds it, and changes nothing.
pub exclusion :
    (node path : String) (ttl now : ℕ) (files : Files) (r : LockRecord) (es : List Event)
    → (acquire_once node path ttl now files).0 ≡ ok r
    → All (IsForeign r) es
    → (other : String) (ttl' later : ℕ) → later ≤ now + ttl
    → acquire_once other path ttl' later (play es (acquire_once node path ttl now files).1)
      ≡ (err (locked_by node), play es (acquire_once node path ttl now files).1)
exclusion node path ttl now files r es e w other ttl' later l =
    let a = acquired_free node path ttl now files r e in
    acquire_held path (fresh_record node path ttl now)
      (play es (acquire_once node path ttl now files).1)
      (lease_holds path (fresh_record node path ttl now) es _ a.1
        (subst (λ x. All (IsForeign x) es) a.0 w))
      later l other ttl'
