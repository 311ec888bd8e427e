-- ===== src/Ledger/Refinement.antt =====
-- `transition` and `update_checkpoint` of src/ops_ledger.py do what Ledger/Spec.antt says.
use ops_sentry.Prelude.{
  string_eq, ℕ, String, ◌≡◌, refl, true, false, Option, none, some, List, [], ◌∷◌, arith, Dict,
  Result, ok, err, if◌then◌else◌, contains, ◌∙◌, Bool-cases, Option-cases, filter, inl, inr, sym,
}
use mathlib.Core.Path.{subst}
use ops_sentry.Prelude.Json.{Json}
use ops_sentry.Ledger.Entry.{
  LedgerEntry, LedgerError, valid_statuses, not_found, unsupported_status, cannot_checkpoint,
  invalid_transition,
}
use ops_sentry.Ledger.Storage.{
  Table, Assignment, find_row, is_mutable, is_expected, assign_all, set_checkpoint, set_updated_at,
}
use ops_sentry.Ledger.Transitions.{allows, is_expected-allowed_old_statuses}
use ops_sentry.Ledger.Operations.{
  transition_updates, transition, update_or_refuse, update_checkpoint, allowed_old_statuses,
}
use ops_sentry.Ledger.Spec.{
  IsLedger, moved, transition_outcome, as_read, replace_row, known-find_row,
  assign_all-transition_updates,
}
use ops_sentry.Ledger.Updating.{
  update_or_refuse_absent, update_or_refuse_unexpected, update_or_refuse_expected,
}

mutable_updates :
    (status : String) (checkpoint : Option (Dict String Json)) (error : Option String) (now : ℕ)
    → filter is_mutable (transition_updates status checkpoint error now)
      ≡ transition_updates status checkpoint error now
unfolding transition_updates is_mutable
mutable_updates status none none now = ground arith
mutable_updates status (some c) none now = ground arith
mutable_updates status none (some e) now = ground arith
mutable_updates status (some c) (some e) now = ground arith

module _ (k status : String) (checkpoint : Option (Dict String Json)) (error : Option String)
    (now : ℕ) (t : Table) (h : IsLedger t) where
  abbrev run : Result LedgerError LedgerEntry × Table
  run = transition k status checkpoint error now t

  abbrev outcome : Result LedgerError LedgerEntry × Table
  outcome = transition_outcome k status checkpoint error now t

  invalid : contains status valid_statuses ≡ false → run ≡ (err (unsupported_status status), t)
  unfolding transition
  invalid bad = rw bad

  outcome_invalid :
      contains status valid_statuses ≡ false → outcome ≡ (err (unsupported_status status), t)
  outcome_invalid bad = rw bad

  valid_absent :
      find_row k t ≡ none
      → contains status valid_statuses ≡ true
      → transition k status checkpoint error now t ≡ (err (not_found k), t)
  unfolding transition transition_updates
  valid_absent a v =
      rw v (
        update_or_refuse_absent k _ _ _ _ t h.unique (mutable_updates status checkpoint error now)
          a)

  valid_refused :
      (r : LedgerEntry)
      → find_row k t ≡ some r
      → contains status valid_statuses ≡ true
      → allows r.status status ≡ false
      → transition k status checkpoint error now t ≡ (err (invalid_transition r.status status), t)
  unfolding transition transition_updates
  valid_refused r f v a = rw v (
      update_or_refuse_unexpected k _ _ _ _ t h.unique (mutable_updates status checkpoint error now)
        r f (known-find_row k t r h.known f)
        (is_expected-allowed_old_statuses r.status status v ∙ a))

  valid_allowed :
      (r : LedgerEntry)
      → find_row k t ≡ some r
      → contains status valid_statuses ≡ true
      → allows r.status status ≡ true
      → transition k status checkpoint error now t ≡ (
        ok (as_read (moved status checkpoint error now r)),
        replace_row k (moved status checkpoint error now r) t,
      )
  unfolding transition transition_updates
  valid_allowed r f v a =
      let e = assign_all-transition_updates status checkpoint error now r in
      rw v (
        subst
          (λ m.
            update_or_refuse k (transition_updates status checkpoint error now)
              (allowed_old_statuses status) (λ e. invalid_transition e.status status) t
            ≡ (ok (as_read m), replace_row k m t))
          e
          (update_or_refuse_expected k _ _ _ _ t h.unique
            (mutable_updates status checkpoint error now) r f (rw e v)
            (is_expected-allowed_old_statuses r.status status v ∙ a)))

  -- On every ledger, `transition` raises and changes nothing where the status is not one of the four, where the id is
  -- not there, or where VALID_TRANSITIONS has no step from the entry's status; otherwise it replaces the one
  -- row by the moved entry and returns that.
  pub transition-eq-transition_outcome :
      transition k status checkpoint error now t
      ≡ transition_outcome k status checkpoint error now t
  transition-eq-transition_outcome = elim (Bool-cases (contains status valid_statuses)) [
    | inr bad ↦ invalid bad ∙ sym (outcome_invalid bad)
    | inl v ↦ elim (Option-cases (find_row k t)) [
      | inl a ↦ valid_absent a v ∙ rw (v, a)
      | inr (r, f) ↦ elim (Bool-cases (allows r.status status)) [
        | inl a ↦ valid_allowed r f v a ∙ rw (v, f, a)
        | inr a ↦ valid_refused r f v a ∙ rw (v, f, a)
      ]
    ]
  ]

-- What `update_checkpoint` means: an entry that is pending or running gets the checkpoint.
abbrev pub checkpointed : Dict String Json → ℕ → LedgerEntry → LedgerEntry
checkpointed c now r = record r { checkpoint = c; updated_at = now }

abbrev checkpoint_decided :
    String
    → (LedgerEntry → LedgerEntry)
    → Table
    → Option LedgerEntry
    → Result LedgerError LedgerEntry × Table
checkpoint_decided k f t none = (err (not_found k), t)
checkpoint_decided k f t (some r) =
    if contains r.status ("pending" ∷ "running" ∷ [])
    then (ok (as_read (f r)), replace_row k (f r) t)
    else (err (cannot_checkpoint r.status), t)

abbrev pub checkpoint_outcome :
    String → Dict String Json → ℕ → Table → Result LedgerError LedgerEntry × Table
checkpoint_outcome k c now t = checkpoint_decided k (checkpointed c now) t (find_row k t)

module _ (k : String) (c : Dict String Json) (now : ℕ) (t : Table) (h : IsLedger t) where
  abbrev fields : List Assignment
  fields = set_checkpoint c ∷ set_updated_at now ∷ []

  both_written : filter is_mutable fields ≡ fields
  unfolding is_mutable
  both_written = refl

  assign_all-fields : (r : LedgerEntry) → assign_all fields r ≡ checkpointed c now r
  unfolding assign_all
  assign_all-fields r = refl

  checkpoint_expected :
      (r : LedgerEntry)
      → find_row k t ≡ some r
      → contains r.status ("pending" ∷ "running" ∷ []) ≡ true
      → update_checkpoint k c now t
        ≡ (ok (as_read (checkpointed c now r)), replace_row k (checkpointed c now r) t)
  unfolding update_checkpoint assign_all is_expected
  checkpoint_expected r f a =
      update_or_refuse_expected k _ _ _ _ t h.unique both_written r f
        (known-find_row k t r h.known f) a

  checkpoint_unexpected :
      (r : LedgerEntry)
      → find_row k t ≡ some r
      → contains r.status ("pending" ∷ "running" ∷ []) ≡ false
      → update_checkpoint k c now t ≡ (err (cannot_checkpoint r.status), t)
  unfolding update_checkpoint is_expected
  checkpoint_unexpected r f a =
      update_or_refuse_unexpected k _ _ _ _ t h.unique both_written r f
        (known-find_row k t r h.known f) a

  checkpoint_absent : find_row k t ≡ none → update_checkpoint k c now t ≡ (err (not_found k), t)
  unfolding update_checkpoint
  checkpoint_absent a = update_or_refuse_absent k _ _ _ _ t h.unique both_written a

  -- On every ledger, `update_checkpoint` changes the checkpoint and the time of an entry that is pending or
  -- running, and raises and changes nothing otherwise.
  pub update_checkpoint-eq-checkpoint_outcome :
      update_checkpoint k c now t ≡ checkpoint_outcome k c now t
  update_checkpoint-eq-checkpoint_outcome = elim (Option-cases (find_row k t)) [
    | inl a ↦ checkpoint_absent a ∙ rw a
    | inr (r, f) ↦ elim (Bool-cases (contains r.status ("pending" ∷ "running" ∷ []))) [
      | inl a ↦ checkpoint_expected r f a ∙ rw (f, a)
      | inr a ↦ checkpoint_unexpected r f a ∙ rw (f, a)
    ]
  ]
