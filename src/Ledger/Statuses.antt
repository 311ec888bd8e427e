-- ===== src/Ledger/Statuses.antt =====
-- Case distinction on a status text: one of VALID_STATUSES of src/ledger_entry.py, or none of them.
use ops_sentry.Prelude.{
  string_eq, String, ◌≡◌, true, false, ◌==◌, contains, inl, inr, Bool-cases, beq→eq,
}
use mathlib.Core.Path.{subst}
use ops_sentry.Ledger.Entry.{valid_statuses}

-- The text equals none of the four statuses.
pub record IsOther (s : String) : Type 0 where
  pub not_pending : ("pending" == s) ≡ false
  pub not_running : ("running" == s) ≡ false
  pub not_completed : ("completed" == s) ≡ false
  pub not_failed : ("failed" == s) ≡ false

module _ (P : String → Type 0) (pending : P "pending") (running : P "running")
    (completed : P "completed") (failed : P "failed") where
  pub by_status : ((s : String) → IsOther s → P s) → (s : String) → P s
  by_status other s = elim (Bool-cases ("pending" == s)) [
    | inl p ↦ subst P (beq→eq _ s p) pending
    | inr np ↦ elim (Bool-cases ("running" == s)) [
      | inl p ↦ subst P (beq→eq _ s p) running
      | inr nr ↦ elim (Bool-cases ("completed" == s)) [
        | inl p ↦ subst P (beq→eq _ s p) completed
        | inr nc ↦ elim (Bool-cases ("failed" == s)) [
          | inl p ↦ subst P (beq→eq _ s p) failed
          | inr nf ↦
              other s
                (record { not_pending = np; not_running = nr; not_completed = nc; not_failed = nf })
        ]
      ]
    ]
  ]

pub other_unknown : (s : String) → IsOther s → contains s valid_statuses ≡ false
other_unknown s h = rw (h.not_pending, h.not_running, h.not_completed, h.not_failed)

pub by_known :
    (P : String → Type 0)
    → P "pending"
    → P "running"
    → P "completed"
    → P "failed"
    → (s : String) → contains s valid_statuses ≡ true
    → P s
by_known P a b c d =
    by_status (λ s. contains s valid_statuses ≡ true → P s) (λ _. a) (λ _. b) (λ _. c) (λ _. d)
      (λ s o h. cc (other_unknown s o))
