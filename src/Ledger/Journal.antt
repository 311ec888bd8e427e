-- ===== src/Ledger/Journal.antt =====
-- An entry that is made, started and ended by one caller of src/ops_ledger.py, as the tools and the cron
-- jobs do: it stands last in the table.
use ops_sentry.Prelude.{
  string_eq, ℕ, String, ◌≡◌, refl, true, Option, none, [], ◌∷◌, ◌++◌, arith, Dict, ok, contains,
  ◌∙◌, All-append, beq_self,
}
use ops_sentry.Prelude.Json.{Json}
use ops_sentry.Ledger.Entry.{LedgerEntry, valid_statuses}
use ops_sentry.Ledger.Storage.{Table, find_row}
use ops_sentry.Ledger.Transitions.{allows}
use ops_sentry.Ledger.Operations.{transition}
use ops_sentry.Ledger.Spec.{IsLedger, as_read, moved, replace_row}
use ops_sentry.Ledger.Refinement.{transition-eq-transition_outcome}
use ops_sentry.Ledger.Creation.{find_row-append, HasUniqueIds-append}

replace_row-append :
    (k : String) (x e : LedgerEntry) (t : Table)
    → e.id ≡ k
    → find_row k t ≡ none
    → replace_row k x (t ++ e ∷ []) ≡ t ++ x ∷ []
unfolding find_row
replace_row-append k x e [] i a = rw (i, beq_self k)
replace_row-append k x e (r ∷ t) i a = ground (arith, replace_row-append k x e t)

pub IsLedger-append :
    (t : Table) (e : LedgerEntry)
    → IsLedger t
    → find_row e.id t ≡ none
    → contains e.status valid_statuses ≡ true
    → IsLedger (t ++ e ∷ [])
IsLedger-append t e h a v = record {
  unique = HasUniqueIds-append t e h.unique a;
  known = All-append _ t _ h.known (v, tt);
}

-- A step of the last entry changes it in its place.
pub transition_last :
    (status : String) (c : Option (Dict String Json)) (error : Option String) (now : ℕ) (t : Table)
    (r : LedgerEntry)
    → IsLedger t
    → find_row r.id t ≡ none
    → contains r.status valid_statuses ≡ true
    → contains status valid_statuses ≡ true
    → allows r.status status ≡ true
    → transition r.id status c error now (t ++ r ∷ [])
      ≡ (ok (as_read (moved status c error now r)), t ++ moved status c error now r ∷ [])
transition_last status c error now t r h a w v l =
    transition-eq-transition_outcome r.id status c error now (t ++ r ∷ [])
      (IsLedger-append t r h a w)
    ∙ rw
        (
          v,
          find_row-append r.id t r a,
          beq_self r.id,
          l,
          replace_row-append r.id (moved status c error now r) r t refl a,
        )
        refl
