-- ===== src/Ledger/History.antt =====
-- Any sequence of calls of src/ops_ledger.py, whatever raises: the commands, and one run of them.
use ops_sentry.Prelude.{
  string_eq, ℕ, String, ◌≡◌, ◌≢◌, refl, true, Option, none, List, [], ◌∷◌, arith, eq_iff, Dict,
  ◌==◌, contains, Bool-cases, Option-cases, inl, inr, All,
}
use ops_sentry.Prelude.Json.{Json}
use ops_sentry.Ledger.Entry.{LedgerEntry, valid_statuses}
use ops_sentry.Ledger.Storage.{Table, find_row}
use ops_sentry.Ledger.Rows.{HasUniqueIds, id-find_row}
use ops_sentry.Ledger.Transitions.{allows}
use ops_sentry.Ledger.Operations.{
  Options, create_entry, transition, update_checkpoint, delete_entry,
}
use ops_sentry.Ledger.Spec.{IsLedger, replace_row, moved, transition_outcome, known-find_row}
use ops_sentry.Ledger.Refinement.{
  transition-eq-transition_outcome, update_checkpoint-eq-checkpoint_outcome, checkpoint_outcome,
  checkpointed,
}
use ops_sentry.Ledger.Creation.{create_entry-IsLedger, delete-IsLedger, delete_found, delete_absent}

-- A call with its arguments; the uuid and the clock's values are among them.
pub data Command : Type 0 where
  create : String → Options → String → ℕ → ℕ → Command
  move : String → String → Option (Dict String Json) → Option String → ℕ → Command
  checkpoint : String → Dict String Json → ℕ → Command
  delete : String → Command

-- The table after the call, returned from or raised from.
unfoldable pub exec : Command → Table → Table
exec (create action o fresh created updated) t = (create_entry action o fresh created updated t).1
exec (move k status c error now) t = (transition k status c error now t).1
exec (checkpoint k c now) t = (update_checkpoint k c now t).1
exec (delete k) t = (delete_entry k t).1

unfoldable pub run : List Command → Table → Table
unfolding exec
run [] t = t
run (c ∷ cs) t = run cs (exec c t)

pub find_row-replace_row_other :
    (k j : String) (e : LedgerEntry) (t : Table)
    → e.id ≡ k
    → k ≢ j
    → find_row j (replace_row k e t) ≡ find_row j t
unfolding find_row
find_row-replace_row_other k j e [] i n = refl
find_row-replace_row_other k j e (r ∷ t) i n =
    ground (arith, eq_iff r.id k, eq_iff r.id j, eq_iff e.id j, find_row-replace_row_other k j e t)

module _ (k : String) (e : LedgerEntry) (i : e.id ≡ k) where
  find_row-none-replace_row :
      (j : String) (t : Table) → find_row j t ≡ none → find_row j (replace_row k e t) ≡ none
  unfolding find_row
  find_row-none-replace_row j [] h = refl
  find_row-none-replace_row j (r ∷ t) h =
      ground (arith, eq_iff r.id k, eq_iff r.id j, eq_iff e.id j, find_row-none-replace_row j t)

  HasUniqueIds-replace_row : (t : Table) → HasUniqueIds t → HasUniqueIds (replace_row k e t)
  unfolding find_row
  HasUniqueIds-replace_row [] u = tt
  HasUniqueIds-replace_row (r ∷ t) u = elim (Bool-cases (r.id == k)) [
    | inl p ↦ rw p (same r t p u.0, u.1)
    | inr q ↦ rw q (find_row-none-replace_row r.id t u.0, HasUniqueIds-replace_row t u.1)
  ]
    where
      same :
          (r : LedgerEntry) (t : Table)
          → (r.id == k) ≡ true
          → find_row r.id t ≡ none
          → find_row e.id t ≡ none
      same r t p a = rw (i, ← (eq_iff r.id k).0 p) a

  All-replace_row :
      (P : LedgerEntry → Type 0) (t : Table) → P e → All P t → All P (replace_row k e t)
  All-replace_row P [] pe a = tt
  All-replace_row P (r ∷ t) pe a = elim (Bool-cases (r.id == k)) [
    | inl p ↦ rw p (pe, a.1)
    | inr q ↦ rw q (a.0, All-replace_row P t pe a.1)
  ]

  pub replace_row-IsLedger :
      (t : Table)
      → contains e.status valid_statuses ≡ true
      → IsLedger t
      → IsLedger (replace_row k e t)
  replace_row-IsLedger t v h = record {
    unique = HasUniqueIds-replace_row t h.unique;
    known = All-replace_row _ t v h.known;
  }

module _ (k status : String) (c : Option (Dict String Json)) (error : Option String) (now : ℕ)
    (t : Table) (h : IsLedger t) where
  outcome-IsLedger : IsLedger (transition_outcome k status c error now t).1
  outcome-IsLedger = elim (Bool-cases (contains status valid_statuses)) [
    | inr bad ↦ rw bad h
    | inl v ↦ elim (Option-cases (find_row k t)) [
      | inl a ↦ rw (v, a) h
      | inr (r, f) ↦ elim (Bool-cases (allows r.status status)) [
        | inl a ↦
            rw (v, f, a)
              (replace_row-IsLedger k (moved status c error now r) (id-find_row k t f) t v h)
        | inr a ↦ rw (v, f, a) h
      ]
    ]
  ]

  transition-IsLedger : IsLedger (transition k status c error now t).1
  transition-IsLedger =
      rw (transition-eq-transition_outcome k status c error now t h) outcome-IsLedger

module _ (k : String) (c : Dict String Json) (now : ℕ) (t : Table) (h : IsLedger t) where
  checkpoint-IsLedger : IsLedger (checkpoint_outcome k c now t).1
  checkpoint-IsLedger = elim (Option-cases (find_row k t)) [
    | inl a ↦ rw a h
    | inr (r, f) ↦ elim (Bool-cases (contains r.status ("pending" ∷ "running" ∷ []))) [
      | inl a ↦
          rw (f, a)
            (replace_row-IsLedger k (checkpointed c now r) (id-find_row k t f) t
              (known-find_row k t r h.known f) h)
      | inr a ↦ rw (f, a) h
    ]
  ]

  update_checkpoint-IsLedger : IsLedger (update_checkpoint k c now t).1
  update_checkpoint-IsLedger =
      rw (update_checkpoint-eq-checkpoint_outcome k c now t h) checkpoint-IsLedger

delete_entry-IsLedger : (k : String) (t : Table) → IsLedger t → IsLedger (delete_entry k t).1
delete_entry-IsLedger k t h = elim (Option-cases (find_row k t)) [
  | inl a ↦ rw (delete_absent k t a) h
  | inr (r, f) ↦ rw (delete_found k t h r f) (delete-IsLedger k t h)
]

pub exec-IsLedger : (c : Command) (t : Table) → IsLedger t → IsLedger (exec c t)
unfolding exec
exec-IsLedger (create action o fresh created updated) t h =
    create_entry-IsLedger action o fresh created updated t h
exec-IsLedger (move k status c error now) t h = transition-IsLedger k status c error now t h
exec-IsLedger (checkpoint k c now) t h = update_checkpoint-IsLedger k c now t h
exec-IsLedger (delete k) t h = delete_entry-IsLedger k t h

-- Whatever calls are made, and whichever of them raise, ids stay unique and every status stays one of the
-- four.
pub run-IsLedger : (cs : List Command) (t : Table) → IsLedger t → IsLedger (run cs t)
unfolding run
run-IsLedger [] t h = h
run-IsLedger (c ∷ cs) t h = run-IsLedger cs (exec c t) (exec-IsLedger c t h)
