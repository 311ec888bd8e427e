-- ===== src/Routers/Takeover.antt =====
-- What the owner's test of src/routers/cron.py keeps away from the jobs of others, and what it does not.
use ops_sentry.Prelude.{
  string_eq, nat_eq, String, ◌≡◌, refl, ap, ◌∙◌, Bool, true, false, Option, none, some, insert,
  remove, lookup, lookup-insert, lookup-remove, has_key, Result, ok, err, ◌==◌, if◌then◌else◌,
  Bool-cases, Result-cases, beq_self, inl, inr,
}
use ops_sentry.Ledger.Entry.{get_or}
use ops_sentry.Tools.Dispatch.{Stamps}
use ops_sentry.Cron.{
  CronJob, Engine, CronError, Outside, PayloadRun, trigger_of, schedule_job, save_jobs, add_job,
  remove_job,
}
use ops_sentry.Routers.Jobs.{
  JobPatch, get_job, patch_job, delete_job, run_job_now, http, job_not_found, verify_user_id,
  on_job, patched_job, replied, serve_job,
}

replied_state : (r : Result CronError CronJob × Engine) → (replied r).1 ≡ r.1
replied_state (ok j, g) = refl
replied_state (err e, g) = refl

module _ (o : Outside) where
  jobs-save_jobs : (g : Engine) → (save_jobs o g).jobs ≡ g.jobs
  unfolding save_jobs
  jobs-save_jobs g = elim (Bool-cases o.writable) [ inl p ↦ rw p refl | inr q ↦ rw q refl ]

  jobs-remove_job :
      (k : String) (g : Engine)
      → (remove_job o k g).jobs ≡ (if has_key k g.jobs then remove k g.jobs else g.jobs)
  unfolding remove_job
  jobs-remove_job k g = elim (Bool-cases (has_key k g.jobs)) [
    | inl p ↦ rw p (jobs-save_jobs _)
    | inr q ↦ rw q refl
  ]

  -- A job is stored whether it can be scheduled or not.
  jobs-add_job : (j : CronJob) (g : Engine) → (add_job o j g).1.jobs ≡ insert j.id j g.jobs
  unfolding add_job schedule_job
  jobs-add_job j g = elim (Bool-cases j.enabled) [
    | inr q ↦ rw q (jobs-save_jobs _)
    | inl p ↦ elim (Result-cases (trigger_of o j.schedule)) [
      | inr (e, f) ↦ rw (p, f) refl
      | inl (none, f) ↦ rw (p, f) (jobs-save_jobs _)
      | inl (some t, f) ↦ rw (p, f) (jobs-save_jobs _)
    ]
  ]

  module _ (show : CronError → String) (payload : PayloadRun) (locked : Bool) (s : Stamps) where
    -- Whoever asks for, patches, deletes or runs a job of another user is told that there is none, and the engine stays as it
    -- is.
    pub serve_job_elsewhere :
        (k uid : String) (p : Option JobPatch) (j : CronJob) (g : Engine)
        → lookup k g.jobs ≡ some j
        → (j.uid == uid) ≡ false
        → (serve_job o show payload locked s (get_job k uid uid) g
            ≡ (err (http (job_not_found k)), g))
          × (serve_job o show payload locked s (patch_job k uid uid p) g
              ≡ (err (http (job_not_found k)), g))
          × (serve_job o show payload locked s (delete_job k uid uid) g
              ≡ (err (http (job_not_found k)), g))
          × (serve_job o show payload locked s (run_job_now k uid uid) g
              ≡ (err (http (job_not_found k)), g))
    unfolding serve_job on_job verify_user_id
    serve_job_elsewhere k uid p j g f other = (
      rw (beq_self uid, f, other) refl,
      rw (beq_self uid, f, other) refl,
      rw (beq_self uid, f, other) refl,
      rw (beq_self uid, f, other) refl,
    )

    -- A patch of a job of one's own may name the id of any other job: that job is then lost, whoever it belongs to, and one of
    -- the requester's stands in its place; the requester's own is gone.
    pub serve_job_takes_over :
        (k other uid : String) (p : JobPatch) (own j : CronJob) (g : Engine)
        → lookup k g.jobs ≡ some own
        → (own.uid == uid) ≡ true
        → lookup other g.jobs ≡ some j
        → (other == k) ≡ false
        → p.id ≡ some other
        → (lookup other (serve_job o show payload locked s (patch_job k uid uid (some p)) g).1.jobs
            ≡ some (patched_job own uid p))
          × (lookup k (serve_job o show payload locked s (patch_job k uid uid (some p)) g).1.jobs
              ≡ none)
          × ((patched_job own uid p).uid ≡ uid)
    unfolding serve_job on_job verify_user_id patched_job
    serve_job_takes_over k other uid p own j g f mine theirs apart named = (
      rw (beq_self uid, f, mine)
          (rw (after) (lookup-insert other other new (remove k g.jobs) ∙ rw (beq_self other) refl)),
      rw (beq_self uid, f, mine)
          (rw (after) (
            lookup-insert other k new (remove k g.jobs)
            ∙ rw (apart) (lookup-remove k k g.jobs ∙ rw (beq_self k) refl))),
      refl,
    )
      where
        new : CronJob
        new = patched_job own uid p

        after :
            (replied (add_job o new (remove_job o k g))).1.jobs ≡ insert other new (remove k g.jobs)
        after =
            ap (λ x. x.jobs) (replied_state (add_job o new (remove_job o k g)))
            ∙ jobs-add_job new (remove_job o k g)
            ∙ ap (λ i. insert i new (remove_job o k g).jobs) (ap (λ i. get_or i own.id) named)
            ∙ ap (insert other new) (jobs-remove_job k g ∙ rw f refl)
