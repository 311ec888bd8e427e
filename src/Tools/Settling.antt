-- ===== src/Tools/Settling.antt =====
-- What a tool call of src/tool_registry.py leaves in the ledger, where the uuid that it draws is new.
use ops_sentry.Prelude.{
  string_eq, ℕ, String, ◌≡◌, refl, none, some, [], ◌∷◌, ◌++◌, ok, lookup, Dict,
}
use ops_sentry.Prelude.Json.{Json}
use ops_sentry.Ledger.Entry.{LedgerEntry, or_else}
use ops_sentry.Ledger.Storage.{Table, find_row}
use ops_sentry.Ledger.Operations.{
  identifier_of, pending_entry, create_entry, mark_running, mark_completed, mark_failed,
}
use ops_sentry.Ledger.Spec.{IsLedger, moved}
use ops_sentry.Ledger.Creation.{create_free}
use ops_sentry.Ledger.Journal.{transition_last}
use ops_sentry.Tools.Dispatch.{
  Args, Execution, Outcome, finished, raised, Reply, failure, outcome_reply, World, Stamps, noted,
  sandbox_note, execution_of, conclude, dispatch_sandbox, to_audit_record,
}

-- An entry that a caller makes without an id, and its life.
module _ (action : String) (metadata : Dict String Json) (fresh : String)
    (created updated : ℕ) where
  abbrev pub made : LedgerEntry
  made = pending_entry fresh action (noted metadata) created updated

  module _ (t : Table) (h : IsLedger t) (new : find_row fresh t ≡ none) where
    pub create_made :
        create_entry action (noted metadata) fresh created updated t ≡ (ok made, t ++ made ∷ [])
    unfolding identifier_of or_else
    create_made = create_free action (noted metadata) fresh created updated t h new

    module _ (started : ℕ) where
      abbrev pub begun : LedgerEntry
      begun = moved "running" none none started made

      pub mark_running-made :
          mark_running fresh none started (t ++ made ∷ []) ≡ (ok begun, t ++ begun ∷ [])
      unfolding mark_running or_else lookup
      mark_running-made = transition_last "running" none none started t made h new refl refl refl

      pub mark_completed-begun :
          (c : Dict String Json) (ended : ℕ)
          → mark_completed fresh (some c) ended (t ++ begun ∷ []) ≡ (
            ok (moved "completed" (some c) none ended begun),
            t ++ moved "completed" (some c) none ended begun ∷ [],
          )
      unfolding mark_completed or_else lookup
      mark_completed-begun c ended =
          transition_last "completed" (some c) none ended t begun h new refl refl refl

      pub mark_failed-begun :
          (e : String) (ended : ℕ)
          → mark_failed fresh e none ended (t ++ begun ∷ []) ≡ (
            ok (moved "failed" none (some e) ended begun),
            t ++ moved "failed" none (some e) ended begun ∷ [],
          )
      unfolding mark_failed or_else lookup
      mark_failed-begun e ended =
          transition_last "failed" none (some e) ended t begun h new refl refl refl

-- The entry of a run that is over.
abbrev pub settled : ℕ → LedgerEntry → Outcome → LedgerEntry
settled ended e (finished r) = moved "completed" (some (to_audit_record r)) none ended e
settled ended e (raised x) = moved "failed" none (some x) ended e

abbrev pub settled_reply : Outcome → Reply
settled_reply (finished r) = outcome_reply r
settled_reply (raised x) = failure x

module _ (sandbox : Execution → Outcome) (s : Stamps) (args : Args) (w : World)
    (h : IsLedger w.table) (new : find_row s.fresh w.table ≡ none) where
  abbrev entry : LedgerEntry
  entry =
      moved "running" none none s.started
        (pending_entry s.fresh "sandbox_exec" (noted (sandbox_note args)) s.created s.updated)

  abbrev asked : World
  asked = record { table = w.table ++ entry ∷ []; runs = w.runs ++ execution_of args ∷ [] }

  conclude_lem :
      (o : Outcome)
      → conclude s.fresh s.ended o asked ≡ (
        ok (settled_reply o),
        record { table = w.table ++ settled s.ended entry o ∷ []; runs = asked.runs },
      )
  conclude_lem (finished r) =
      rw
        (mark_completed-begun "sandbox_exec" (sandbox_note args) s.fresh s.created s.updated w.table
          h new s.started (to_audit_record r) s.ended)
        refl
  conclude_lem (raised x) =
      rw
        (mark_failed-begun "sandbox_exec" (sandbox_note args) s.fresh s.created s.updated w.table h
          new s.started x s.ended)
        refl

  -- The call runs once in the sandbox, whatever comes of it, and its entry ends as completed or failed.
  pub dispatch_sandbox_lem : dispatch_sandbox sandbox s args w ≡ (
    ok (settled_reply (sandbox (execution_of args))),
    record {
      table = w.table ++ settled s.ended entry (sandbox (execution_of args)) ∷ [];
      runs = asked.runs;
    },
  )
  unfolding dispatch_sandbox
  dispatch_sandbox_lem =
      rw (create_made "sandbox_exec" (sandbox_note args) s.fresh s.created s.updated w.table h new)
        (rw
          (mark_running-made "sandbox_exec" (sandbox_note args) s.fresh s.created s.updated w.table
            h new s.started)
          (conclude_lem (sandbox (execution_of args))))
