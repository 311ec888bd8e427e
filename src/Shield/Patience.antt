-- ===== src/Shield/Patience.antt =====
-- How waiting for a resource ends in `acquire` of src/config_shield.py.
use ops_sentry.Prelude.{
  string_eq, nat_eq, ℕ, ◌+◌, ◌≤◌, ◌<◌, String, ◌≡◌, ◌≢◌, refl, ◌∙◌, Bool, true, false, inl, inr,
  Option, none, some, List, [], ◌∷◌, ◌++◌, All, any, Result, ok, err, lookup, arith, Bool-cases,
}
use ops_sentry.Shield.Files.{
  LockRecord, Files, LockError, Config, locked_by, effective_ttl, fresh_record,
}
use ops_sentry.Shield.Leases.{
  play, IsForeign, free_at, acquire_once_free, acquire_held, lease_holds,
}
use ops_sentry.Shield.Waiting.{
  OsError, Local, Round, Waited, acquired, refused, still_waiting, is_over, is_transient,
  deadline_of, attempt, after_attempt, acquire_rounds, acquire,
}

-- A trouble after which `acquire` goes on.
abbrev pub IsPassing : Bool → Option OsError → Type 0
IsPassing win32 none = Unit
IsPassing win32 (some e) = is_transient win32 e ≡ true

-- Whatever other nodes do before it, short of what IsForeign excludes, the attempt comes before the lease ends, and the
-- deadline has not passed when it has failed.
abbrev pub IsEarly : Bool → ℕ → LockRecord → Round → Type 0
IsEarly win32 deadline held x =
    All (IsForeign held) x.others
    × (x.at ≤ held.heartbeat_at + held.ttl_ms)
    × (is_over deadline x.checked ≡ false)
    × IsPassing win32 x.trouble

module _ (c : Config) (win32 : Bool) (path : String) (ttl deadline : ℕ) (start : Bool) where
  -- An early round fails, and the next one follows.
  early_round :
      (held : LockRecord) (x : Round) (rounds : List Round) (files : Files) (l : Local)
      → lookup path files ≡ some held
      → IsEarly win32 deadline held x
      → acquire_rounds c win32 path ttl deadline start (x ∷ rounds) files l
        ≡ acquire_rounds c win32 path ttl deadline start rounds (play x.others files) l
  unfolding acquire_rounds
  early_round held x rounds files l h w = by_trouble x.trouble w.3
    where
      still : lookup path (play x.others files) ≡ some held
      still = lease_holds path held x.others files h w.0

      by_trouble :
          (o : Option OsError)
          → IsPassing win32 o
          → after_attempt c win32 path ttl deadline start x.checked l
              (λ files'. acquire_rounds c win32 path ttl deadline start rounds files' l)
              (attempt c.node path ttl x (play x.others files) o)
            ≡ acquire_rounds c win32 path ttl deadline start rounds (play x.others files) l
      by_trouble none t =
          rw (acquire_held path held (play x.others files) still x.at w.1 c.node ttl) (rw w.2 refl)
      by_trouble (some e) t = rw (t, w.2) refl

  early_rounds :
      (held : LockRecord) (early : List Round) (files : Files) (l : Local)
      → lookup path files ≡ some held
      → All (IsEarly win32 deadline held) early
      → (files' : Files) × (lookup path files' ≡ some held)
        × ((rest : List Round)
            → acquire_rounds c win32 path ttl deadline start (early ++ rest) files l
              ≡ acquire_rounds c win32 path ttl deadline start rest files' l)
  early_rounds held [] files l h w = (files, h, (λ rest. refl))
  early_rounds held (x ∷ early) files l h w =
      let later =
        early_rounds held early (play x.others files) l
          (lease_holds path held x.others files h w.0.0) w.1 in
      (later.0, later.1, (λ rest. early_round held x (early ++ rest) files l h w.0 ∙ later.2 rest))

  -- An attempt after the lease has ended has the resource.
  late_round :
      (held : LockRecord) (x : Round) (rounds : List Round) (files : Files) (l : Local)
      → lookup path files ≡ some held
      → All (IsForeign held) x.others
      → x.trouble ≡ none
      → held.heartbeat_at + held.ttl_ms < x.at
      → ((acquire_rounds c win32 path ttl deadline start (x ∷ rounds) files l).0
          ≡ acquired (fresh_record c.node path ttl x.at))
        × (lookup path (acquire_rounds c win32 path ttl deadline start (x ∷ rounds) files l).1
            ≡ some (fresh_record c.node path ttl x.at))
  unfolding acquire_rounds
  late_round held x rounds files l h w t late =
      let f = acquire_once_free c.node path ttl x.at (play x.others files) free in
      rw (t, f.0) (refl, f.1)
    where
      free : free_at x.at (lookup path (play x.others files)) ≡ true
      free = rw (lease_holds path held x.others files h w) (ground (arith, late))

  last_round :
      (held : LockRecord) (x : Round) (rounds : List Round) (files : Files) (l : Local)
      → lookup path files ≡ some held
      → All (IsForeign held) x.others
      → x.trouble ≡ none
      → x.at ≤ held.heartbeat_at + held.ttl_ms
      → is_over deadline x.checked ≡ true
      → acquire_rounds c win32 path ttl deadline start (x ∷ rounds) files l
        ≡ (refused (locked_by held.node_id), play x.others files, l)
  unfolding acquire_rounds
  last_round held x rounds files l h w t before over =
      rw
        (
          t,
          acquire_held path held (play x.others files) (lease_holds path held x.others files h w)
              x.at before c.node ttl,
        )
        (rw over refl)

  reply_ends :
      (checked : ℕ) (l : Local) (again : Files → Waited × Files × Local)
      → (is_over deadline checked ≡ false → (files : Files) → (again files).0 ≢ still_waiting)
      → (o : Result OsError (Result LockError LockRecord) × Files)
      → (after_attempt c win32 path ttl deadline start checked l again o).0 ≢ still_waiting
  reply_ends checked l again next (ok (ok r), files) = λ e. cc e
  reply_ends checked l again next (ok (err e), files) =
      elim (Bool-cases (is_over deadline checked)) [
        | inl p ↦ rw p (λ g. cc g)
        | inr q ↦ rw q (next q files)
      ]
  reply_ends checked l again next (err e, files) = elim (Bool-cases (is_transient win32 e)) [
    | inl t ↦ elim (Bool-cases (is_over deadline checked)) [
      | inl p ↦ rw (t, p) (λ g. cc g)
      | inr q ↦ rw (t, q) (next q files)
    ]
    | inr f ↦ rw f (λ g. cc g)
  ]

  -- The loop has ended by the first round whose failure comes after the deadline.
  rounds_end :
      (rounds : List Round) (files : Files) (l : Local)
      → any (λ x. is_over deadline x.checked) rounds ≡ true
      → (acquire_rounds c win32 path ttl deadline start rounds files l).0 ≢ still_waiting
  unfolding acquire_rounds
  rounds_end [] files l h = cc h
  rounds_end (x ∷ rounds) files l h =
      reply_ends x.checked l
        (λ files'. acquire_rounds c win32 path ttl deadline start rounds files' l)
        (λ q files'. rounds_end rounds files' l (rw q at h))
        (attempt c.node path ttl x (play x.others files) x.trouble)

-- A node waits for a resource that another holds. Let each of its rounds so far come before the holder's lease ends and see
-- its failure before the deadline, with no file error but passing ones, and let the next attempt meet no file error; let
-- all calls of other nodes before these attempts be uninterrupted, come before the lease ends too, and be neither the
-- holder's own nor a forced release. If the attempt comes after the lease has ended, the node has the resource; if
-- before, and the deadline has passed when it fails, the node is told who holds it, the record stays, and no
-- heartbeat thread is started.
pub acquire_waits :
    (c : Config) (win32 : Bool) (path : String) (ttl : Option ℕ) (wait_ms : ℕ) (start : Bool)
    (started : ℕ) (held : LockRecord) (early : List Round) (x : Round) (rest : List Round)
    (files : Files) (l : Local)
    → lookup path files ≡ some held
    → All (IsEarly win32 (deadline_of started wait_ms) held) early
    → All (IsForeign held) x.others
    → x.trouble ≡ none
    → (held.heartbeat_at + held.ttl_ms < x.at
        → ((acquire c win32 path ttl wait_ms start started (early ++ x ∷ rest) files l).0
            ≡ acquired (fresh_record c.node path (effective_ttl c ttl) x.at))
          × (lookup path
                (acquire c win32 path ttl wait_ms start started (early ++ x ∷ rest) files l).1
              ≡ some (fresh_record c.node path (effective_ttl c ttl) x.at)))
      × (x.at ≤ held.heartbeat_at + held.ttl_ms
          → is_over (deadline_of started wait_ms) x.checked ≡ true
          → ((acquire c win32 path ttl wait_ms start started (early ++ x ∷ rest) files l).0
              ≡ refused (locked_by held.node_id))
            × (lookup path
                  (acquire c win32 path ttl wait_ms start started (early ++ x ∷ rest) files l).1
                ≡ some held)
            × ((acquire c win32 path ttl wait_ms start started (early ++ x ∷ rest) files l).2 ≡ l))
unfolding acquire
acquire_waits c win32 path ttl wait_ms start started held early x rest files l h w foreign calm =
    let d =
      early_rounds c win32 path (effective_ttl c ttl) (deadline_of started wait_ms) start held early
        files l h w in
    (
      (λ late. rw (d.2 (x ∷ rest)) (
          late_round c win32 path (effective_ttl c ttl) (deadline_of started wait_ms) start held x
            rest d.0 l d.1 foreign calm late)),
      (λ before over.
          let e =
            last_round c win32 path (effective_ttl c ttl) (deadline_of started wait_ms) start held x
              rest d.0 l d.1 foreign calm before over in
          rw (d.2 (x ∷ rest), e) (refl, lease_holds path held x.others d.0 d.1 foreign, refl)),
    )

-- Whatever happens to the attempts, `acquire` has returned or raised by the first round whose failure is seen after the
-- deadline; without a waiting time that is its first round.
pub acquire_ends :
    (c : Config) (win32 : Bool) (path : String) (ttl : Option ℕ) (wait_ms : ℕ) (start : Bool)
    (started : ℕ) (rounds : List Round) (files : Files) (l : Local)
    → any (λ x. is_over (deadline_of started wait_ms) x.checked) rounds ≡ true
    → (acquire c win32 path ttl wait_ms start started rounds files l).0 ≢ still_waiting
unfolding acquire
acquire_ends c win32 path ttl wait_ms start started rounds files l h =
    rounds_end c win32 path (effective_ttl c ttl) (deadline_of started wait_ms) start rounds files l
      h
