-- ===== src/Cron.antt =====
-- src/cron_engine.py: the jobs, their scheduling, and the wrapper that runs one of them. The scheduler and
-- the trigger classes are APScheduler's; a job is with the scheduler or not, under its trigger.
mod Examples
pub mod Running
pub mod Payloads
use ops_sentry.Prelude.{
  string_eq, nat_eq, ℕ, ◌+◌, String, Bool, true, false, not, ◌&&◌, ◌||◌, Option, none, some, List,
  [], ◌∷◌, ◌++◌, Dict, ◌==◌, map, length, ltb, lookup, insert, remove, has_key, if◌then◌else◌,
  Result, ok, err,
}
use ops_sentry.Prelude.Action.{Action, return, raise, ◌>>=◌, ◌>>◌}
use ops_sentry.Prelude.Texts.{words}
use ops_sentry.Prelude.Json.{Json, str}
use ops_sentry.Ledger.Entry.{LedgerEntry, LedgerError, get_or}
use ops_sentry.Ledger.Storage.{Table}
use ops_sentry.Ledger.Operations.{Options, create_entry, mark_running, mark_completed, mark_failed}
use ops_sentry.Tools.Dispatch.{noted, or_ledger_error, ToolError, ledger_error, Stamps, show_error}

-- The `at` of a schedule: a text or a number.
pub data Moment : Type 0 where
  text : String → Moment
  millis : ℕ → Moment

pub record Schedule : Type 0 where
  pub kind : String
  pub in_ms : Option ℕ
  pub at : Option Moment
  pub every_ms : Option ℕ
  pub expr : Option String
  pub tz : Option String
  pub jitter : Option ℕ

pub record Payload : Type 0 where
  pub kind : String
  pub command : Option String
  pub tool : Option String
  pub args : Option (Dict String Json)
  pub message : Option String

pub record CronJob : Type 0 where
  pub id : String
  pub name : String
  pub schedule : Schedule
  pub payload : Payload
  pub uid : String
  pub did : Option String
  pub enabled : Bool
  pub delete_after_run : Bool
  pub priority : ℕ
  pub created_at : ℕ

-- What is asked of the trigger classes.
pub data Trigger : Type 0 where
  date_trigger : ℕ → Trigger
  interval_trigger : ℕ → ℕ → Trigger
  cron_trigger : List (String × String) → Option String → ℕ → Trigger

pub data CronError : Type 0 where
  attribute_error : CronError
  type_error : CronError
  value_error : CronError
  tool_error : ToolError → CronError

-- `jobs`, the jobs file, the jobs that the scheduler has, and the ledger.
pub record Engine : Type 0 where
  pub jobs : Dict String CronJob
  pub file : Option (List CronJob)
  pub scheduled : Dict String Trigger
  pub table : Table

abbrev pub Step : Type 0 → Type 0
Step A = Action Engine CronError A

-- What the engine needs of the outside: the clock, ISO dates, and whether CronTrigger takes the fields.
pub record Outside : Type 0 where
  pub now : ℕ
  pub parse_iso : String → Option ℕ
  pub is_cron : List (String × String) → Bool
  pub writable : Bool

-- The fields of a cron expression, by their number.
abbrev pub cron_fields : List String → Option (List (String × String))
cron_fields (a ∷ b ∷ c ∷ d ∷ e ∷ []) =
    some (("minute", a) ∷ ("hour", b) ∷ ("day", c) ∷ ("month", d) ∷ ("day_of_week", e) ∷ [])
cron_fields (s ∷ a ∷ b ∷ c ∷ d ∷ e ∷ []) = some (
    ("second", s)
    ∷ ("minute", a)
    ∷ ("hour", b)
    ∷ ("day", c)
    ∷ ("month", d)
    ∷ ("day_of_week", e)
    ∷ [])
cron_fields _ = none

abbrev pub cron_trigger_of :
    Outside → Schedule → Option (List (String × String)) → Result CronError (Option Trigger)
cron_trigger_of o s none = ok none
cron_trigger_of o s (some fields) =
    if o.is_cron fields
    then ok (some (cron_trigger fields s.tz (get_or s.jitter 0)))
    else err value_error

abbrev pub moment_trigger : Outside → Option Moment → Result CronError (Option Trigger)
moment_trigger o none = err type_error
moment_trigger o (some (millis n)) = ok (some (date_trigger n))
moment_trigger o (some (text t)) = elim (o.parse_iso t) [
  | some n ↦ ok (some (date_trigger n))
  | none ↦ err value_error
]

abbrev pub expression_trigger :
    Outside → Schedule → Option String → Result CronError (Option Trigger)
expression_trigger o s none = err attribute_error
expression_trigger o s (some e) = cron_trigger_of o s (cron_fields (words e))

-- The chain of tests in `_schedule_job`.
unfoldable pub trigger_of : Outside → Schedule → Result CronError (Option Trigger)
trigger_of o s =
    if s.kind == "in"
    then ok (some (date_trigger (o.now + get_or s.in_ms 0)))
    else if s.kind == "at"
    then moment_trigger o s.at
    else if s.kind == "every"
    then ok (some (interval_trigger (get_or s.every_ms 0) (get_or s.jitter 0)))
    else if s.kind == "cron"
    then expression_trigger o s s.expr
    else ok none

abbrev pub scheduled_with : CronJob → Result CronError (Option Trigger) → Step (Unit {0})
scheduled_with job (err e) g = (err e, g)
scheduled_with job (ok none) g = (ok tt, g)
scheduled_with job (ok (some trigger)) g =
    (ok tt, record g { scheduled = insert job.id trigger g.scheduled })

-- _schedule_job, with replace_existing
unfoldable pub schedule_job : Outside → CronJob → Step (Unit {0})
schedule_job o job = scheduled_with job (trigger_of o job.schedule)

abbrev pub values {ℓ} : {A : Type ℓ} → Dict String A → List A
values d = map (λ p. p.1) d

-- _save_jobs logs its failure.
unfoldable pub save_jobs : Outside → Engine → Engine
save_jobs o g = if o.writable then record g { file = some (values g.jobs) } else g

abbrev pub keyed : List CronJob → Dict String CronJob → Dict String CronJob
keyed [] d = d
keyed (j ∷ js) d = keyed js (insert j.id j d)

abbrev pub jobs_in : Option (List CronJob) → Dict String CronJob
jobs_in none = []
jobs_in (some js) = keyed js []

-- _load_jobs of a new engine, on a file that is there and well-formed, or not there.
unfoldable pub load_jobs : Engine → Engine
load_jobs g = record g { jobs = jobs_in g.file; scheduled = [] }

abbrev pub schedule_all : Outside → List CronJob → Step (Unit {0})
schedule_all o [] = return tt
schedule_all o (j ∷ js) = (if j.enabled then schedule_job o j else return tt) >> schedule_all o js

-- start
unfoldable pub start_engine : Outside → Step (Unit {0})
start_engine o g = schedule_all o (values g.jobs) g

-- add_job
unfoldable pub add_job : Outside → CronJob → Step CronJob
add_job o job g =
    (((if job.enabled then schedule_job o job else return tt) >>= λ _ h. (ok job, save_jobs o h))
      (record g { jobs = insert job.id job g.jobs }))

-- remove_job
unfoldable pub remove_job : Outside → String → Engine → Engine
remove_job o k g =
    if has_key k g.jobs
    then save_jobs o (record g { jobs = remove k g.jobs; scheduled = remove k g.scheduled })
    else g

abbrev pub or_tool_error {ℓ} : {A : Type ℓ} → Result LedgerError A → Result CronError A
or_tool_error (ok a) = ok a
or_tool_error (err e) = err (tool_error (ledger_error e))

abbrev pub on_ledger {ℓ} :
    {A : Type ℓ} → (Table → Result LedgerError A × Table) → Engine → Result CronError A × Engine
on_ledger m g = (or_tool_error (m g.table).0, record g { table = (m g.table).1 })

abbrev pub job_note : CronJob → String → Json → Dict String Json
job_note job key value = ("job_id", str job.id) ∷ ("job_name", str job.name) ∷ (key, value) ∷ []

-- What a job's payload does to the engine: its result, or the text of what it raises.
abbrev pub PayloadRun : Type 0
PayloadRun = CronJob → Engine → Result String Json × Engine

-- A dropped job is written down as pending, running, and completed.
unfoldable pub skip_job : Stamps → CronJob → Step (Unit {0})
skip_job s job =
    on_ledger (
      create_entry "cron_job_skipped" (noted (job_note job "reason" (str "Backpressure"))) s.fresh
        s.created s.updated)
    >>= λ entry. on_ledger (mark_running entry.id none s.started) >>= λ _.
        on_ledger (mark_completed entry.id (some (("status", str "skipped") ∷ [])) s.ended) >>= λ _.
        return tt

abbrev pub fail_job : String → ℕ → String → Step (Unit {0})
fail_job k ended e = on_ledger (mark_failed k e none ended) >>= λ _. return tt

abbrev pub completed_or_failed : String → ℕ → Result LedgerError LedgerEntry → Step (Unit {0})
completed_or_failed k ended (ok e) = return tt
completed_or_failed k ended (err e) = fail_job k ended (show_error e)

-- The `try` around the payload: what its result and `mark_completed` come to.
abbrev pub settle_job : String → ℕ → Result String Json → Step (Unit {0})
settle_job k ended (err e) g = fail_job k ended e g
settle_job k ended (ok result) g =
    let done = mark_completed k (some (("result", result) ∷ [])) ended g.table in
    completed_or_failed k ended done.0 (record g { table = done.1 })

abbrev pub run_payload : PayloadRun → CronJob → String → ℕ → Step (Unit {0})
run_payload payload job k ended g = settle_job k ended (payload job g).0 (payload job g).1

abbrev pub clean_up : Outside → CronJob → Step (Unit {0})
clean_up o job g = (ok tt, (if job.delete_after_run then remove_job o job.id g else g))

unfoldable pub run_job : Outside → PayloadRun → Stamps → CronJob → Step (Unit {0})
run_job o payload s job =
    on_ledger (
      create_entry "cron_job_exec" (noted (job_note job "payload_kind" (str job.payload.kind)))
        s.fresh s.created s.updated)
    >>= λ entry. on_ledger (mark_running entry.id none s.started) >>= λ _.
        run_payload payload job entry.id s.ended >> clean_up o job

abbrev pub run_or_skip : Outside → PayloadRun → Bool → Stamps → Option CronJob → Step (Unit {0})
run_or_skip o payload locked s none = return tt
run_or_skip o payload locked s (some job) =
    if not job.enabled
    then return tt
    else if locked && ltb job.priority 30
    then skip_job s job
    else run_job o payload s job

-- _execute_job_wrapper. `locked` tells whether all slots of the semaphore are taken.
unfoldable pub execute_job_wrapper : Outside → PayloadRun → Bool → Stamps → String → Step (Unit {0})
execute_job_wrapper o payload locked s k g = run_or_skip o payload locked s (lookup k g.jobs) g
