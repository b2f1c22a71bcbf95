-- ===== src/Journal/Steps.antt =====
-- core/domain/journal.py: accepted events, read as steps of the stages of every job.
use video_captioner_z.Base.{
  String, ◌≡◌, ◌≢◌, refl, sym, subst, Bool, true, false, some, List, [], ◌∷◌, str_eq, arith,
  Bool-cases, inl, inr, All, Pairs, Pairs-refl, done, next, Result, ok, Ensures, Ensures-ok,
  Ensures-err, Ensures-bind, Ensures-raise_if, Ensures-weaken,
}
use video_captioner_z.Json.{Fields}
use video_captioner_z.Job.{ConfigCodec, JobProjection}
use video_captioner_z.Job.Plan.{HasPlan}
use video_captioner_z.Batch.{BatchProjection}
use video_captioner_z.Event.{
  EventType, batch_created, batch_config_updated, job_created, job_config_updated, JournalEvent,
}
use video_captioner_z.StageEvents.Steps.{StageStep, stay}
use video_captioner_z.JobEvents.{apply_to_job}
use video_captioner_z.JobEvents.Steps.{JobStep, apply_to_job-JobStep}
use video_captioner_z.Journal.{update_job, replace_jobs, update_one, apply_payload, apply_event}
use video_captioner_z.Journal.Chain.{batch_projection_lem}

-- the events that change which stages or jobs there are
abbrev pub changes_plan : EventType → Bool
changes_plan batch_created = true
changes_plan batch_config_updated = true
changes_plan job_created = true
changes_plan job_config_updated = true
changes_plan _ = false

module _ {C : Type 0} where
  module _ {P : JobProjection C → Type 0} (R : JobProjection C → JobProjection C → Type 0)
      (same : (j : JobProjection C) → P j → R j j) where
    same-All : (js : List (JobProjection C)) → All P js → Pairs R js js
    same-All [] h = done
    same-All (j ∷ js) h = next (same j h.0) (same-All js h.1)

    -- The job that is found is changed, and no other.
    pub update_job-Pairs :
        (id : String) (f : JobProjection C → Result (JobProjection C))
        → ((j : JobProjection C) → P j → Ensures (R j) (f j))
        → (js : List (JobProjection C)) → All P js
        → Ensures (Pairs R js) (update_job id f js)
    unfolding update_job
    update_job-Pairs id f step [] h = Ensures-err _
    update_job-Pairs id f step (j ∷ js) h = elim (Bool-cases (str_eq j.job_id id)) [
      | inl e ↦
          rw e (
            Ensures-bind _ _ (λ k hk. Ensures-ok _ (next ((step j h.0).at k hk) (same-All js h.1))))
      | inr e ↦ rw e (
          Ensures-bind _ _ (λ ks hks.
            Ensures-ok _ (next (same j h.0) ((update_job-Pairs id f step js h.1).at ks hks))))
    ]

  pub jobs-replace_jobs :
      (p : BatchProjection C) (jobs : List (JobProjection C))
      → Ensures (λ q. q.jobs ≡ jobs) (replace_jobs p jobs)
  unfolding replace_jobs
  jobs-replace_jobs p jobs = Ensures-weaken _ _ (λ q h. ground arith) (batch_projection_lem _ _ _ _)

module _ {C : Type 0} (codec : ConfigCodec C) where
  JobStep-refl : (j : JobProjection C) → HasPlan codec j → JobStep codec j j
  JobStep-refl j p = record {
    same_id = refl;
    same_config = refl;
    steps = Pairs-refl StageStep (λ x. stay) j.stages;
    planned = p;
  }

  update_one-Steps :
      (p : BatchProjection C) (type : EventType) (payload : Fields)
      → type ≢ job_config_updated
      → All (HasPlan codec) p.jobs
      → Ensures (λ q. Pairs (JobStep codec) p.jobs q.jobs) (update_one codec p type payload)
  unfolding update_one
  update_one-Steps p type payload c h = Ensures-bind _ _ (λ id _. Ensures-bind _ _ (λ jobs u.
      Ensures-weaken _ _
        (λ q e. subst (Pairs (JobStep codec) p.jobs) (sym e) (
          (update_job-Pairs (JobStep codec) JobStep-refl id (λ j. apply_to_job codec j type payload)
              (λ j w. apply_to_job-JobStep codec j w type payload c) p.jobs h).at
            jobs u))
        (jobs-replace_jobs p jobs)))

  apply_payload-Steps :
      (p : BatchProjection C) (type : EventType) (payload : Fields)
      → changes_plan type ≡ false
      → All (HasPlan codec) p.jobs
      → Ensures (λ q. Pairs (JobStep codec) p.jobs q.jobs) (apply_payload codec p type payload)
  unfolding apply_payload
  apply_payload-Steps p batch_config_updated payload c h = absurd (cc)
  apply_payload-Steps p job_created payload c h = absurd (cc)
  apply_payload-Steps p type payload c h = update_one-Steps p type payload (λ e. ground arith) h

  -- jobs of the batch that `apply_event` returns: those that the payload made
  pub apply_event-jobs {μ} :
      (P : List (JobProjection C) → Type μ) (p : BatchProjection C) (e : JournalEvent)
      → Ensures (λ q. P q.jobs) (apply_payload codec p e.type e.payload)
      → Ensures (λ q. P q.jobs) (apply_event codec (some p) e)
  unfolding apply_event
  apply_event-jobs P p e h = Ensures-bind _ _ (λ _ _. Ensures-raise_if _ _ _ (λ _.
      Ensures-bind _ _ (λ u hu. Ensures-bind _ _ (λ _ _.
        Ensures-weaken _ _ (λ q k. subst P (sym (ground arith)) (h.at u hu))
          (batch_projection_lem _ _ _ _)))))

  -- An accepted event that creates no job and changes no configuration takes every stage of every
  -- job at most one step of the stage machine, in place: it keeps the jobs, their order, identities
  -- and configurations, and each job's stages are still those of its plan.
  pub apply_event-Steps :
      (p : BatchProjection C) (e : JournalEvent) (q : BatchProjection C)
      → All (HasPlan codec) p.jobs
      → changes_plan e.type ≡ false
      → apply_event codec (some p) e ≡ ok q
      → Pairs (JobStep codec) p.jobs q.jobs
  apply_event-Steps p e q h c a =
      (apply_event-jobs (Pairs (JobStep codec) p.jobs) p e
          (apply_payload-Steps p e.type e.payload c h)).at
        q a
