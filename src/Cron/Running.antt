-- ===== src/Cron/Running.antt =====
-- What a run of a job of src/cron_engine.py leaves in the ledger and in the jobs.
use ops_sentry.Prelude.{
  string_eq, nat_eq, ℕ, String, Bool, true, false, ◌&&◌, ◌≡◌, refl, Option, none, some, [], ◌∷◌,
  ◌++◌, ◌∙◌, ap, arith, Result, ok, err, lookup, remove, has_key, if◌then◌else◌, Dict, Bool-cases,
  inl, inr, ltb, is_some, lookup-remove, beq_self,
}
use ops_sentry.Prelude.Json.{Json, str}
use ops_sentry.Ledger.Entry.{LedgerEntry}
use ops_sentry.Ledger.Storage.{Table, find_row}
use ops_sentry.Ledger.Operations.{mark_completed, mark_failed}
use ops_sentry.Ledger.Spec.{IsLedger, as_read, moved, replace_row, find_row-replace_row}
use ops_sentry.Ledger.Refinement.{transition-eq-transition_outcome}
use ops_sentry.Tools.Dispatch.{Stamps}
use ops_sentry.Tools.Settling.{begun, create_made, mark_running-made, mark_completed-begun}
use ops_sentry.Cron.{
  CronJob, Engine, Outside, PayloadRun, job_note, skip_job, run_job, settle_job, clean_up,
  execute_job_wrapper, remove_job, save_jobs,
}

-- A step of an entry that runs, wherever it stands.
module _ (k : String) (t : Table) (h : IsLedger t) (r : LedgerEntry) (f : find_row k t ≡ some r)
    (running : r.status ≡ "running") where
  complete_running :
      (c : Dict String Json) (now : ℕ)
      → mark_completed k (some c) now t ≡ (
        ok (as_read (moved "completed" (some c) none now r)),
        replace_row k (moved "completed" (some c) none now r) t,
      )
  unfolding mark_completed lookup
  complete_running c now =
      transition-eq-transition_outcome k "completed" (some c) none now t h ∙ rw (f, running) refl

  fail_running :
      (e : String) (now : ℕ)
      → mark_failed k e none now t ≡ (
        ok (as_read (moved "failed" none (some e) now r)),
        replace_row k (moved "failed" none (some e) now r) t,
      )
  unfolding mark_failed lookup
  fail_running e now =
      transition-eq-transition_outcome k "failed" none (some e) now t h ∙ rw (f, running) refl

-- The entry after the payload's answer.
abbrev pub ended_as : ℕ → LedgerEntry → Result String Json → LedgerEntry
ended_as now r (ok result) = moved "completed" (some (("result", result) ∷ [])) none now r
ended_as now r (err e) = moved "failed" none (some e) now r

settle_job_lem :
    (k : String) (now : ℕ) (a : Result String Json) (g : Engine) (r : LedgerEntry)
    → IsLedger g.table
    → find_row k g.table ≡ some r
    → r.status ≡ "running"
    → settle_job k now a g ≡ (ok tt, record g { table = replace_row k (ended_as now r a) g.table })
settle_job_lem k now (ok result) g r h f u =
    rw (complete_running k g.table h r f u (("result", result) ∷ []) now) refl
settle_job_lem k now (err e) g r h f u = rw (fail_running k g.table h r f u e now) refl

table-remove_job : (o : Outside) (k : String) (g : Engine) → (remove_job o k g).table ≡ g.table
unfolding remove_job save_jobs
table-remove_job o k g = ground arith

lookup-remove_job :
    (o : Outside) (k : String) (g : Engine) → lookup k (remove_job o k g).jobs ≡ none
unfolding remove_job save_jobs
lookup-remove_job o k g = elim (Bool-cases (has_key k g.jobs)) [
  | inl a ↦ rw a (elim (Bool-cases o.writable) [ inl b ↦ rw b gone | inr b ↦ rw b gone ])
  | inr a ↦ rw a (absent (lookup k g.jobs) a)
]
  where
    gone : lookup k (remove k g.jobs) ≡ none
    gone = lookup-remove k k g.jobs ∙ rw (beq_self k) refl

    absent : (x : Option CronJob) → is_some x ≡ false → x ≡ none
    absent none e = refl
    absent (some j) e = cc

module _ (o : Outside) (k : String) (g : Engine) where
  abbrev removed_if : Bool → Engine
  removed_if b = if b then remove_job o k g else g

  table-removed_if : (b : Bool) → (removed_if b).table ≡ g.table
  table-removed_if true = table-remove_job o k g
  table-removed_if false = refl

  lookup-removed_if :
      (b : Bool) → lookup k (removed_if b).jobs ≡ (if b then none else lookup k g.jobs)
  lookup-removed_if true = lookup-remove_job o k g
  lookup-removed_if false = refl

-- Which of its ways the wrapper goes.
module _ (o : Outside) (payload : PayloadRun) (locked : Bool) (s : Stamps) (k : String)
    (job : CronJob) (g : Engine) (found : lookup k g.jobs ≡ some job)
    (enabled : job.enabled ≡ true) where
  runs_job :
      (locked && ltb job.priority 30) ≡ false
      → execute_job_wrapper o payload locked s k g ≡ run_job o payload s job g
  unfolding execute_job_wrapper
  runs_job n = rw found (ground (arith, enabled, n))

  skips_job :
      (locked && ltb job.priority 30) ≡ true
      → execute_job_wrapper o payload locked s k g ≡ skip_job s job g
  unfolding execute_job_wrapper
  skips_job n = rw found (ground (arith, enabled, n))

module _ (o : Outside) (payload : PayloadRun) (s : Stamps) (job : CronJob) (g : Engine)
    (h : IsLedger g.table) (new : find_row s.fresh g.table ≡ none) where
  abbrev pub entry : LedgerEntry
  entry =
      begun "cron_job_exec" (job_note job "payload_kind" (str job.payload.kind)) s.fresh s.created
        s.updated g.table h new s.started

  -- The engine at the time the payload starts.
  abbrev pub begun_engine : Engine
  begun_engine = record g { table = g.table ++ entry ∷ [] }

  abbrev pub answer : Result String Json × Engine
  answer = payload job begun_engine

  module _ (kept : IsLedger answer.1.table)
      (alone : find_row s.fresh answer.1.table ≡ some entry) where
    abbrev after_payload : Engine
    after_payload = record (answer.1) {
      table = replace_row s.fresh (ended_as s.ended entry answer.0) answer.1.table;
    }

    run_job_lem : run_job o payload s job g ≡ clean_up o job after_payload
    unfolding run_job
    run_job_lem =
        rw
          (create_made "cron_job_exec" (job_note job "payload_kind" (str job.payload.kind)) s.fresh
            s.created s.updated g.table h new)
          (rw
            (mark_running-made "cron_job_exec" (job_note job "payload_kind" (str job.payload.kind))
              s.fresh s.created s.updated g.table h new s.started)
            (rw (settle_job_lem s.fresh s.ended answer.0 answer.1 entry kept alone refl) refl))

    written :
        find_row s.fresh (clean_up o job after_payload).1.table
        ≡ some (ended_as s.ended entry answer.0)
    written =
        ap (find_row s.fresh) (table-removed_if o job.id after_payload job.delete_after_run)
        ∙ find_row-replace_row s.fresh (ended_as s.ended entry answer.0) answer.1.table
            (same_id answer.0) alone
      where
        same_id : (x : Result String Json) → (ended_as s.ended entry x).id ≡ s.fresh
        same_id (ok r) = refl
        same_id (err e) = refl

    module _ (locked : Bool) (k : String) (found : lookup k g.jobs ≡ some job)
        (enabled : job.enabled ≡ true) where
      -- An enabled job that is not dropped runs to its end, whatever its payload returns or raises, as long as the payload
      -- leaves the ledger sound and the entry of the run alone: the wrapper does not raise, the entry is
      -- completed with the payload's result or failed with its error, and a job that is to
      -- be deleted after its run is gone, where others stay as the payload left them.
      pub execute_job_wrapper_lem :
          (locked && ltb job.priority 30) ≡ false
          → ((execute_job_wrapper o payload locked s k g).0 ≡ ok tt)
            × (find_row s.fresh (execute_job_wrapper o payload locked s k g).1.table
                ≡ some (ended_as s.ended entry answer.0))
            × (lookup job.id (execute_job_wrapper o payload locked s k g).1.jobs
                ≡ (if job.delete_after_run then none else lookup job.id answer.1.jobs))
      execute_job_wrapper_lem n =
          rw (runs_job o payload locked s k job g found enabled n, run_job_lem)
            (refl, written, lookup-removed_if o job.id after_payload job.delete_after_run)

  module _ (locked : Bool) (k : String) (found : lookup k g.jobs ≡ some job)
      (enabled : job.enabled ≡ true) where
    skipped_entry : LedgerEntry
    skipped_entry = moved "completed" (some (("status", str "skipped") ∷ [])) none s.ended (
        begun "cron_job_skipped" (job_note job "reason" (str "Backpressure")) s.fresh s.created
          s.updated g.table h new s.started)

    skip_job_lem : skip_job s job g ≡ (ok tt, record g { table = g.table ++ skipped_entry ∷ [] })
    unfolding skip_job skipped_entry
    skip_job_lem =
        rw
          (create_made "cron_job_skipped" (job_note job "reason" (str "Backpressure")) s.fresh
            s.created s.updated g.table h new)
          (rw
            (mark_running-made "cron_job_skipped" (job_note job "reason" (str "Backpressure"))
              s.fresh s.created s.updated g.table h new s.started)
            (rw
              (mark_completed-begun "cron_job_skipped" (job_note job "reason" (str "Backpressure"))
                s.fresh s.created s.updated g.table h new s.started (("status", str "skipped") ∷ [])
                s.ended)
              refl))

    -- While all slots are taken, an enabled job of a priority below 30 does not run: the engine changes only by one
    -- completed entry, which says that it was skipped.
    pub execute_job_wrapper_skipped :
        (locked && ltb job.priority 30) ≡ true
        → execute_job_wrapper o payload locked s k g ≡ (
          ok tt,
          record g {
            table =
                g.table
                ++ moved "completed" (some (("status", str "skipped") ∷ [])) none s.ended (
                    begun "cron_job_skipped"
                      (job_note job "reason" (str "Backpressure"))
                      s.fresh
                      s.created
                      s.updated
                      g.table
                      h
                      new
                      s.started)
                  ∷ [];
          },
        )
    unfolding skipped_entry
    execute_job_wrapper_skipped n =
        skips_job o payload locked s k job g found enabled n ∙ skip_job_lem
