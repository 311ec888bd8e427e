-- ===== src/Shield/Race.antt =====
-- `_acquire_once` of src/config_shield.py by two nodes at once on one resource: each of its file operations
-- is a step of its own, and a schedule says whose step is next.
use ops_sentry.Prelude.{
  string_eq, ◌≡◌, ◌≢◌, refl, Bool, true, false, Option, none, some, List, [], ◌∷◌, ◌==◌, ◌∙◌, ap,
  sym, subst, beq_self, if◌then◌else◌,
}
use ops_sentry.Shield.Files.{LockRecord}

-- Where a node stands: before the first O_EXCL; behind the read of a stale record; behind the rename;
-- behind the second O_EXCL and the write; or at an end.
pub data Stage : Type 0 where
  starting saw_stale renamed created holds refused : Stage

-- The next file operation of a node that writes the record `me`.
unfoldable pub advance :
    (LockRecord → Bool) → LockRecord → Stage → Option LockRecord → Stage × Option LockRecord
advance stale me starting none = (holds, some me)
advance stale me starting (some r) = if stale r then (saw_stale, some r) else (refused, some r)
advance stale me saw_stale none = (starting, none)
advance stale me saw_stale (some r) = (renamed, none)
advance stale me renamed none = (created, some me)
advance stale me renamed (some r) = (refused, some r)
advance stale me created none = (refused, none)
advance stale me created (some r) =
    if r.node_id == me.node_id then (holds, some r) else (refused, some r)
advance stale me holds file = (holds, file)
advance stale me refused file = (refused, file)

pub data Side : Type 0 where
  first second : Side

pub record Race : Type 0 where
  pub file : Option LockRecord
  pub one : Stage
  pub two : Stage

module _ (stale : LockRecord → Bool) (a b : LockRecord) where
  abbrev moved_one : Stage × Option LockRecord → Stage → Race
  moved_one w s = record { file = w.1; one = w.0; two = s }

  abbrev moved_two : Stage × Option LockRecord → Stage → Race
  moved_two w s = record { file = w.1; one = s; two = w.0 }

  unfoldable pub turn : Side → Race → Race
  turn first s = moved_one (advance stale a s.one s.file) s.two
  turn second s = moved_two (advance stale b s.two s.file) s.one

  unfoldable pub play_out : List Side → Race → Race
  play_out [] s = s
  play_out (x ∷ xs) s = play_out xs (turn x s)

  abbrev pub race_on : Option LockRecord → Race
  race_on file = record { file = file; one = starting; two = starting }

  -- Nobody reclaims, and who holds has its record in the file.
  abbrev Settled : LockRecord → Stage → Option LockRecord → Type 0
  Settled me starting file = Unit
  Settled me saw_stale file = ⊥
  Settled me renamed file = ⊥
  Settled me created file = ⊥
  Settled me holds file = file ≡ some me
  Settled me refused file = Unit

  abbrev pub IsFresh : Option LockRecord → Type 0
  IsFresh none = Unit
  IsFresh (some r) = stale r ≡ false

  record IsCalm (s : Race) : Type 0 where
    pub one : Settled a s.one s.file
    pub two : Settled b s.two s.file
    pub fresh : IsFresh s.file

  -- One step of a node, beside one whose record may be in the file.
  Settled-step :
      (me other : LockRecord) (s o : Stage) (file : Option LockRecord)
      → stale me ≡ false
      → Settled me s file
      → Settled other o file
      → IsFresh file
      → Settled me (advance stale me s file).0 (advance stale me s file).1
        × Settled other o (advance stale me s file).1
        × IsFresh (advance stale me s file).1
  unfolding advance
  Settled-step me other starting starting none f x y z = (refl, tt, f)
  Settled-step me other starting holds none f x y z = cc y
  Settled-step me other starting refused none f x y z = (refl, tt, f)
  Settled-step me other starting o (some r) f x y z = rw z (tt, y, z)
  Settled-step me other starting saw_stale none f x y z = elim y [ ]
  Settled-step me other starting renamed none f x y z = elim y [ ]
  Settled-step me other starting created none f x y z = elim y [ ]
  Settled-step me other saw_stale o file f x y z = elim x [ ]
  Settled-step me other renamed o file f x y z = elim x [ ]
  Settled-step me other created o file f x y z = elim x [ ]
  Settled-step me other holds o file f x y z = (x, y, z)
  Settled-step me other refused o file f x y z = (tt, y, z)

  module _ (fa : stale a ≡ false) (fb : stale b ≡ false) where
    turn-IsCalm : (x : Side) (s : Race) → IsCalm s → IsCalm (turn x s)
    unfolding turn
    turn-IsCalm first s c =
        let w = Settled-step a b s.one s.two s.file fa c.one c.two c.fresh in
        record { one = w.0; two = w.1; fresh = w.2 }
    turn-IsCalm second s c =
        let w = Settled-step b a s.two s.one s.file fb c.two c.one c.fresh in
        record { one = w.1; two = w.0; fresh = w.2 }

    play_out-IsCalm : (xs : List Side) (s : Race) → IsCalm s → IsCalm (play_out xs s)
    unfolding play_out
    play_out-IsCalm [] s c = c
    play_out-IsCalm (x ∷ xs) s c = play_out-IsCalm xs (turn x s) (turn-IsCalm x s c)

    -- Where no record in play is stale, two different nodes never both hold the lock, whatever order their file operations
    -- come in.
    pub one_holder :
        (xs : List Side) (file : Option LockRecord)
        → IsFresh file
        → a.node_id ≢ b.node_id
        → (play_out xs (race_on file)).one ≡ holds
        → (play_out xs (race_on file)).two ≢ holds
    one_holder xs file f n p q =
        let c = play_out-IsCalm xs (race_on file) (record { one = tt; two = tt; fresh = f }) in
        let x = subst (λ z. Settled a z (play_out xs (race_on file)).file) p c.one in
        let y = subst (λ z. Settled b z (play_out xs (race_on file)).file) q c.two in
        n (ap (λ r. r.node_id) (some_injective (sym x ∙ y)))
      where
        some_injective : some a ≡ some b → a ≡ b
        some_injective e = cc e

  abbrev pub bad_schedule : List Side
  bad_schedule = first ∷ second ∷ first ∷ first ∷ first ∷ second ∷ second ∷ second ∷ []

  both_see :
      (r : LockRecord) (xs : List Side)
      → stale r ≡ true
      → play_out (first ∷ second ∷ xs) (race_on (some r))
        ≡ play_out xs (record { file = some r; one = saw_stale; two = saw_stale })
  unfolding play_out turn advance
  both_see r xs s = ap (play_out xs) (rw s (rw s refl))

  one_reclaims :
      (r : LockRecord) (o : Stage) (xs : List Side)
      → play_out (first ∷ first ∷ first ∷ xs) (record { file = some r; one = saw_stale; two = o })
        ≡ play_out xs (record { file = some a; one = holds; two = o })
  unfolding play_out turn advance
  one_reclaims r o xs = ap (play_out xs) (rw (beq_self a.node_id) refl)

  two_reclaims :
      (r : LockRecord) (o : Stage) (xs : List Side)
      → play_out
          (second ∷ second ∷ second ∷ xs)
          (record { file = some r; one = o; two = saw_stale })
        ≡ play_out xs (record { file = some b; one = o; two = holds })
  unfolding play_out turn advance
  two_reclaims r o xs = ap (play_out xs) (rw (beq_self b.node_id) refl)

  -- Where the record that is there is stale, there is an order of the operations after which two nodes hold the lock: both
  -- read it, the first reclaims, and the second then renames the first one's new record away.
  pub two_holders :
      (r : LockRecord)
      → stale r ≡ true
      → play_out bad_schedule (race_on (some r))
        ≡ record { file = some b; one = holds; two = holds }
  unfolding play_out
  two_holders r s =
      both_see r (first ∷ first ∷ first ∷ second ∷ second ∷ second ∷ []) s
      ∙ one_reclaims r saw_stale (second ∷ second ∷ second ∷ [])
      ∙ two_reclaims a holds []
