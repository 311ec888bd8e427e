-- ===== src/Routers/Jobs.antt =====
-- The routes of src/routers/cron.py over the engine of Cron.antt, with verify_user_id of src/dependencies.py. A body is
-- given as FastAPI has read it.
use ops_sentry.Prelude.{
  string_eq, nat_eq, ℕ, String, Bool, not, Option, none, some, List, Result, ok, err, lookup,
  filter, ◌==◌, if◌then◌else◌,
}
use ops_sentry.Prelude.Action.{Action}
use ops_sentry.Prelude.Texts.{◌+++◌}
use ops_sentry.Ledger.Entry.{get_or}
use ops_sentry.Access.{HttpException}
use ops_sentry.Tools.Dispatch.{Stamps}
use ops_sentry.Cron.{
  CronJob, Schedule, Payload, Engine, CronError, Outside, PayloadRun, values, add_job, remove_job,
  execute_job_wrapper,
}

-- The keys of a patch that CronJob has, where each has a value of its type.
pub record JobPatch : Type 0 where
  pub id : Option String
  pub name : Option String
  pub schedule : Option Schedule
  pub payload : Option Payload
  pub did : Option (Option String)
  pub enabled : Option Bool
  pub delete_after_run : Option Bool
  pub priority : Option ℕ
  pub created_at : Option ℕ

-- A request: the job's id, the uid of the query, the header X-User-ID, and the body. A patch that is `none` has a value
-- that CronJob refuses.
pub data JobRequest : Type 0 where
  get_jobs : String → String → JobRequest
  post_job : CronJob → JobRequest
  get_job : String → String → String → JobRequest
  patch_job : String → String → String → Option JobPatch → JobRequest
  delete_job : String → String → String → JobRequest
  run_job_now : String → String → String → JobRequest

pub data JobReply : Type 0 where
  jobs : List CronJob → JobReply
  job : CronJob → JobReply
  deleted : JobReply
  triggered : JobReply

pub data JobError : Type 0 where
  http : HttpException → JobError
  engine_raised : CronError → JobError
  model_refused : JobError

abbrev pub Step : Type 0 → Type 0
Step A = Action Engine JobError A

abbrev pub mismatch : HttpException
mismatch = record { status_code = 403; detail = "Access denied: UID mismatch" }

-- verify_user_id
unfoldable pub verify_user_id : String → String → Result HttpException String
verify_user_id uid x_user_id = if not (uid == x_user_id) then err mismatch else ok uid

abbrev pub job_not_found : String → HttpException
job_not_found k = record {
  status_code = 404;
  detail = "Job " +++ k +++ " not found or access denied";
}

abbrev pub owned_by : String → String → Option CronJob → Result HttpException CronJob
owned_by k uid none = err (job_not_found k)
owned_by k uid (some j) = if not (j.uid == uid) then err (job_not_found k) else ok j

abbrev pub verified : Result HttpException String → (String → Step JobReply) → Step JobReply
verified (err e) go g = (err (http e), g)
verified (ok uid) go g = go uid g

abbrev pub if_owned : Result HttpException CronJob → (CronJob → Step JobReply) → Step JobReply
if_owned (err e) go g = (err (http e), g)
if_owned (ok j) go g = go j g

-- The two dependencies of the routes of one job.
unfoldable pub on_job : String → String → String → (CronJob → Step JobReply) → Step JobReply
unfolding verify_user_id
on_job k uid x_user_id go g =
    verified (verify_user_id uid x_user_id) (λ u. if_owned (owned_by k u (lookup k g.jobs)) go) g

-- The old data with the patch over it, and the uid of the request.
unfoldable pub patched_job : CronJob → String → JobPatch → CronJob
patched_job j uid p = record {
  id = get_or p.id j.id;
  name = get_or p.name j.name;
  schedule = get_or p.schedule j.schedule;
  payload = get_or p.payload j.payload;
  uid = uid;
  did = get_or p.did j.did;
  enabled = get_or p.enabled j.enabled;
  delete_after_run = get_or p.delete_after_run j.delete_after_run;
  priority = get_or p.priority j.priority;
  created_at = get_or p.created_at j.created_at;
}

abbrev pub replied : Result CronError CronJob × Engine → Result JobError JobReply × Engine
replied (ok j, g) = (ok (job j), g)
replied (err e, g) = (err (engine_raised e), g)

-- update_job, behind its checks
abbrev pub update_job : Outside → String → String → Option JobPatch → CronJob → Step JobReply
unfolding patched_job add_job remove_job
update_job o k uid none j g = (err model_refused, g)
update_job o k uid (some p) j g = replied (add_job o (patched_job j uid p) (remove_job o k g))

-- create_job, which catches what add_job raises
abbrev pub created :
    (CronError → String) → Result CronError CronJob × Engine → Result JobError JobReply × Engine
created show (ok j, g) = (ok (job j), g)
created show (err e, g) = (err (http (record { status_code = 400; detail = show e })), g)

abbrev pub ran : Result CronError (Unit {0}) × Engine → Result JobError JobReply × Engine
ran (ok u, g) = (ok triggered, g)
ran (err e, g) = (err (engine_raised e), g)

unfoldable pub serve_job :
    Outside → (CronError → String) → PayloadRun → Bool → Stamps → JobRequest → Step JobReply
unfolding on_job verify_user_id patched_job add_job remove_job execute_job_wrapper
serve_job o show payload locked s (get_jobs uid x_user_id) =
    verified (verify_user_id uid x_user_id)
      (λ u g. (ok (jobs (filter (λ j. j.uid == u) (values g.jobs))), g))
serve_job o show payload locked s (post_job j) = λ g. created show (add_job o j g)
serve_job o show payload locked s (get_job k uid x_user_id) =
    on_job k uid x_user_id (λ j g. (ok (job j), g))
serve_job o show payload locked s (patch_job k uid x_user_id p) =
    on_job k uid x_user_id (update_job o k uid p)
serve_job o show payload locked s (delete_job k uid x_user_id) =
    on_job k uid x_user_id (λ j g. (ok deleted, remove_job o k g))
serve_job o show payload locked s (run_job_now k uid x_user_id) =
    on_job k uid x_user_id (λ j g. ran (execute_job_wrapper o payload locked s k g))
