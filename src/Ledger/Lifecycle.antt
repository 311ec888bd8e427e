-- ===== src/Ledger/Lifecycle.antt =====
-- The life of one entry under any calls of src/ops_ledger.py that do not delete it.
use ops_sentry.Prelude.{
  string_eq, ℕ, String, ◌≡◌, ◌≢◌, refl, true, false, Option, some, List, [], ◌∷◌, ◌++◌, eq_iff,
  Dict, ◌==◌, lookup, contains, ◌∙◌, ap, Bool-cases, Option-cases, beq_of_ne, inl, inr, ◌⊎◌, sym,
  All,
}
use mathlib.Core.Path.{subst}
use mathlib.Core.Bool.{false≢true}
use ops_sentry.Prelude.Json.{Json}
use ops_sentry.Ledger.Storage
use ops_sentry.Ledger.Entry.{LedgerEntry, valid_statuses}
use ops_sentry.Ledger.Storage.{Table, find_row}
use ops_sentry.Ledger.Rows.{id-find_row}
use ops_sentry.Ledger.Transitions.{allows}
use ops_sentry.Ledger.Operations.{
  Options, identifier_of, create_entry, transition, update_checkpoint, delete_entry,
}
use ops_sentry.Ledger.Spec.{IsLedger, replace_row, moved, transition_outcome, find_row-replace_row}
use ops_sentry.Ledger.Refinement.{
  transition-eq-transition_outcome, update_checkpoint-eq-checkpoint_outcome, checkpoint_outcome,
  checkpointed,
}
use ops_sentry.Ledger.Creation.{
  create_free, create_taken, new_entry, find_row-append_other, find_row-delete, delete_found,
  delete_absent,
}
use ops_sentry.Ledger.History.{
  Command, create, move, checkpoint, delete, exec, run, exec-IsLedger, find_row-replace_row_other,
}

-- What may become of an entry in one call: nothing; a new checkpoint while it is pending or running; or a
-- step that VALID_TRANSITIONS has. Its id, action, creation time, reference and metadata never change.
pub data Follows (r : LedgerEntry) : LedgerEntry → Type 0 where
  unchanged : Follows r r
  saved :
      (c : Dict String Json) (now : ℕ)
      → contains r.status ("pending" ∷ "running" ∷ []) ≡ true
      → Follows r (checkpointed c now r)
  stepped :
      (status : String) (c : Option (Dict String Json)) (error : Option String) (now : ℕ)
      → allows r.status status ≡ true
      → Follows r (moved status c error now r)

pub record Successor (r : LedgerEntry) (k : String) (t : Table) : Type 0 where
  pub entry : LedgerEntry
  pub found : find_row k t ≡ some entry
  pub follows : Follows r entry

-- The call does not delete the entry `k`.
abbrev pub Keeps : String → Command → Type 0
Keeps k (delete j) = j ≢ k
Keeps k (create _ _ _ _ _) = Unit
Keeps k (move _ _ _ _ _) = Unit
Keeps k (checkpoint _ _ _) = Unit

module _ (k : String) (r : LedgerEntry) (t : Table) (h : IsLedger t)
    (f : find_row k t ≡ some r) where
  stays : (t' : Table) → find_row k t' ≡ find_row k t → Successor r k t'
  stays t' e = record { entry = r; found = e ∙ f; follows = unchanged }

  elsewhere : (j : String) (e : LedgerEntry) → e.id ≡ j → j ≢ k → Successor r k (replace_row j e t)
  elsewhere j e i n = stays (replace_row j e t) (find_row-replace_row_other j k e t i n)

  replaced :
      (j : String) (e x : LedgerEntry)
      → find_row j t ≡ some x
      → e.id ≡ x.id
      → (x ≡ r → Follows r e)
      → Successor r k (replace_row j e t)
  replaced j e x g i w = elim (Bool-cases (j == k)) [
    | inl p ↦
        let q = (eq_iff j k).0 p in
        record {
          entry = e;
          found =
              subst (λ m. find_row m (replace_row j e t) ≡ some e) q
                (find_row-replace_row j e t (i ∙ id-find_row j t g) g);
          follows = w (cc (g, f, ap (λ m. find_row m t) q));
        }
    | inr n ↦ elsewhere j e (i ∙ id-find_row j t g) (λ q. cc (n, (eq_iff j k).1 q))
  ]

  module _ (j status : String) (c : Option (Dict String Json)) (error : Option String)
      (now : ℕ) where
    after_outcome : Successor r k (transition_outcome j status c error now t).1
    after_outcome = elim (Bool-cases (contains status valid_statuses)) [
      | inr bad ↦ rw bad (stays t refl)
      | inl v ↦ elim (Option-cases (find_row j t)) [
        | inl a ↦ rw (v, a) (stays t refl)
        | inr (x, g) ↦ elim (Bool-cases (allows x.status status)) [
          | inr a ↦ rw (v, g, a) (stays t refl)
          | inl a ↦
              rw (v, g, a)
                (replaced j (moved status c error now x) x g refl (λ q.
                  subst (λ y. Follows y (moved status c error now x)) q
                    (stepped status c error now a)))
        ]
      ]
    ]

    after_move : Successor r k (transition j status c error now t).1
    after_move = rw (transition-eq-transition_outcome j status c error now t h) after_outcome

  module _ (j : String) (c : Dict String Json) (now : ℕ) where
    after_checkpoint_outcome : Successor r k (checkpoint_outcome j c now t).1
    after_checkpoint_outcome = elim (Option-cases (find_row j t)) [
      | inl a ↦ rw a (stays t refl)
      | inr (x, g) ↦ elim (Bool-cases (contains x.status ("pending" ∷ "running" ∷ []))) [
        | inr a ↦ rw (g, a) (stays t refl)
        | inl a ↦
            rw (g, a)
              (replaced j (checkpointed c now x) x g refl
                (λ q. subst (λ y. Follows y (checkpointed c now x)) q (saved c now a)))
      ]
    ]

    after_checkpoint : Successor r k (update_checkpoint j c now t).1
    after_checkpoint =
        rw (update_checkpoint-eq-checkpoint_outcome j c now t h) after_checkpoint_outcome

  module _ (action : String) (o : Options) (fresh : String) (created updated : ℕ) where
    abbrev entry : LedgerEntry
    entry = new_entry action o fresh created updated t h

    after_create : Successor r k (create_entry action o fresh created updated t).1
    after_create = elim (Option-cases (find_row (identifier_of o.entry_id fresh) t)) [
      | inr (x, g) ↦ rw (create_taken action o fresh created updated t h x g) (stays t refl)
      | inl a ↦
          rw (create_free action o fresh created updated t h a)
            (stays (t ++ entry ∷ []) (find_row-append_other k t entry (λ q. cc (a, f))))
    ]

  after_delete : (j : String) → j ≢ k → Successor r k (delete_entry j t).1
  after_delete j n = elim (Option-cases (find_row j t)) [
    | inl a ↦ rw (delete_absent j t a) (stays t refl)
    | inr (x, g) ↦
        rw (delete_found j t h x g)
          (stays (Storage.delete j t) (find_row-delete j k t ∙ rw (beq_of_ne j k n)))
  ]

  -- One call that does not delete the entry leaves it there, and does to it only what `Follows` says.
  pub exec-Follows : (c : Command) → Keeps k c → Successor r k (exec c t)
  unfolding exec
  exec-Follows (create action o fresh created updated) w =
      after_create action o fresh created updated
  exec-Follows (move j status c error now) w = after_move j status c error now
  exec-Follows (checkpoint j c now) w = after_checkpoint j c now
  exec-Follows (delete j) w = after_delete j w

-- What one call leaves of an entry: its id, action, creation time, reference and metadata, and its status, or one step of
-- VALID_TRANSITIONS from it.
pub record Evolves (r e : LedgerEntry) : Type 0 where
  pub id : e.id ≡ r.id
  pub action : e.action ≡ r.action
  pub created_at : e.created_at ≡ r.created_at
  pub metadata : e.metadata ≡ r.metadata
  pub accio_ref : e.accio_ref ≡ r.accio_ref
  pub status : (e.status ≡ r.status) ⊎ (allows r.status e.status ≡ true)

Follows-Evolves : {r e : LedgerEntry} → Follows r e → Evolves r e
Follows-Evolves unchanged = record {
  id = refl;
  action = refl;
  created_at = refl;
  metadata = refl;
  accio_ref = refl;
  status = inl refl;
}
Follows-Evolves (saved c now h) = record {
  id = refl;
  action = refl;
  created_at = refl;
  metadata = refl;
  accio_ref = refl;
  status = inl refl;
}
Follows-Evolves (stepped s c error now h) = record {
  id = refl;
  action = refl;
  created_at = refl;
  metadata = refl;
  accio_ref = refl;
  status = inr h;
}

-- What is found under an id after each of the calls.
unfoldable pub trail : String → List Command → Table → List (Option LedgerEntry)
unfolding exec find_row
trail k [] t = []
trail k (c ∷ cs) t = find_row k (exec c t) ∷ trail k cs (exec c t)

-- Each is there, and evolves from the one before it.
abbrev pub IsChain : LedgerEntry → List (Option LedgerEntry) → Type 0
IsChain r [] = Unit
IsChain r (o ∷ os) = (e : LedgerEntry) × (o ≡ some e) × Evolves r e × IsChain e os

-- Over any calls of the ledger that do not delete it, whichever of them raise, an entry is there after each call, with its
-- id, action, creation time, reference and metadata, and from one call to the next its status stays or makes one step
-- of VALID_TRANSITIONS.
pub trail-IsChain :
    (k : String) (cs : List Command) (r : LedgerEntry) (t : Table)
    → IsLedger t
    → find_row k t ≡ some r
    → All (Keeps k) cs
    → IsChain r (trail k cs t)
unfolding trail
trail-IsChain k [] r t h f w = tt
trail-IsChain k (c ∷ cs) r t h f w =
    let s = exec-Follows k r t h f c w.0 in
    (
      s.entry,
      s.found,
      Follows-Evolves s.follows,
      trail-IsChain k cs s.entry (exec c t) (exec-IsLedger c t h) s.found w.1,
    )

completed_ends : (new : String) → allows "completed" new ≡ false
unfolding lookup
completed_ends new = refl

completed_unchanged : {r e : LedgerEntry} → r.status ≡ "completed" → Follows r e → e ≡ r
completed_unchanged p unchanged = refl
completed_unchanged p (saved c now h) = absurd (false≢true (rw p at h))
completed_unchanged p (stepped s c error now h) =
    absurd (false≢true (sym (completed_ends s) ∙ (rw p at h)))

-- A completed entry is final: over any calls that do not delete it, it stays exactly as it is.
pub run-completed :
    (k : String) (cs : List Command) (r : LedgerEntry) (t : Table)
    → IsLedger t
    → find_row k t ≡ some r
    → r.status ≡ "completed"
    → All (Keeps k) cs
    → find_row k (run cs t) ≡ some r
unfolding run
run-completed k [] r t h f p w = f
run-completed k (c ∷ cs) r t h f p w =
    let s = exec-Follows k r t h f c w.0 in
    run-completed k cs r (exec c t) (exec-IsLedger c t h)
      (s.found ∙ ap some (completed_unchanged p s.follows)) p w.1
