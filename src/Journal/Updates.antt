-- ===== src/Journal/Updates.antt =====
-- core/domain/journal.py: what each change of a payload keeps of the jobs of a batch.
use video_captioner_z.Base.{
  String, ◌≡◌, refl, sym, ap, subst, ◌∙◌, true, false, none, some, List, [], ◌∷◌, ◌++◌, map, str_eq,
  any, contains, distinct, distinct-snoc, arith, All, All-append, Pairs, All-Pairs, done, next,
  Ensures, Ensures-ok, Ensures-bind, Ensures-raise_if, Ensures-weaken,
}
use mathlib.Core.List.{map-append}
use video_captioner_z.Json.{Fields}
use video_captioner_z.Stage.{StageName, StageProjection, stage_plan_for}
use video_captioner_z.Job.{ConfigCodec, JobProjection, JobState, replace_job}
use video_captioner_z.Job.Plan.{HasPlan, Builds, job_projection-Builds}
use video_captioner_z.Batch.{BatchProjection}
use video_captioner_z.Event.{EventType, job_config_updated}
use video_captioner_z.StageEvents.Steps.{StageStep}
use video_captioner_z.StageEvents.Terminal.{IsSound, StageStep-IsSound}
use video_captioner_z.StageEvents.Reconfigure.{reconfigure_stages-IsSound, or_fresh-IsSound}
use video_captioner_z.JobEvents.{apply_to_job}
use video_captioner_z.JobEvents.Steps.{JobStep, apply_to_job-JobStep}
use video_captioner_z.Journal.{reconfigure_jobs, update_batch_config, create_job, update_one}
use video_captioner_z.Journal.Steps.{update_job-Pairs, jobs-replace_jobs}

abbrev pub job_ids : {C : Type 0} → List (JobProjection C) → List String
job_ids = map (λ j. j.job_id)

module _ {C : Type 0} (codec : ConfigCodec C) where
  -- A job's stages are those of its plan, and each committed one has its cache key and artifacts.
  pub record IsGood (j : JobProjection C) : Type 0 where
    pub planned : HasPlan codec j
    pub sound : All IsSound j.stages

  -- The job may have a new configuration, and is still good.
  pub record JobUpdate (j k : JobProjection C) : Type 0 where
    pub same_id : k.job_id ≡ j.job_id
    pub good : IsGood k

  JobStep-JobUpdate : (j k : JobProjection C) → IsGood j → JobStep codec j k → JobUpdate j k
  JobStep-JobUpdate j k g s = record {
    same_id = s.same_id;
    good = record {
      planned = s.planned;
      sound = All-Pairs StageStep IsSound IsSound (λ x y. StageStep-IsSound) s.steps g.sound;
    };
  }

  replace-JobUpdate :
      (j : JobProjection C) (config : C) (state : JobState) (stages : List StageProjection)
      → All IsSound stages
      → Ensures (JobUpdate j) (replace_job codec j config state stages)
  unfolding replace_job
  replace-JobUpdate j config state stages h =
      Ensures-weaken _ _
        (λ k b. record {
          same_id = b.job_id;
          good = record {
            planned = b.planned;
            sound =
                subst (All IsSound) (sym b.stages_given)
                  (or_fresh-IsSound stages (stage_plan_for (codec.profile config)) h);
          };
        })
        (job_projection-Builds codec j.job_id j.input_path config state stages)

  apply_to_job-JobUpdate :
      (j : JobProjection C) (type : EventType) (payload : Fields)
      → IsGood j
      → Ensures (JobUpdate j) (apply_to_job codec j type payload)
  unfolding apply_to_job
  apply_to_job-JobUpdate j job_config_updated payload g = Ensures-bind _ _ (λ config _.
      replace-JobUpdate j config j.state _
        (reconfigure_stages-IsSound (stage_plan_for (codec.profile config)) none j.stages g.sound))
  apply_to_job-JobUpdate j type payload g =
      Ensures-weaken _ _ (λ k s. JobStep-JobUpdate j k g s)
        (apply_to_job-JobStep codec j g.planned type payload (λ e. ground arith))

  reconfigure_jobs-JobUpdate :
      (config : C) (earliest : StageName) (js : List (JobProjection C))
      → All IsGood js
      → Ensures (Pairs JobUpdate js) (reconfigure_jobs codec config earliest js)
  unfolding reconfigure_jobs
  reconfigure_jobs-JobUpdate config earliest [] h = Ensures-ok _ done
  reconfigure_jobs-JobUpdate config earliest (j ∷ js) h =
      let plan = stage_plan_for (codec.profile config) in
      Ensures-bind _ _ (λ k hk. Ensures-bind _ _ (λ ks hks. Ensures-ok _ (
        next
          ((replace-JobUpdate j config _ _
              (reconfigure_stages-IsSound plan (some earliest) j.stages (h.0).sound)).at
            k hk)
          ((reconfigure_jobs-JobUpdate config earliest js h.1).at ks hks))))

  -- The jobs of a batch: distinct ids, and every job good.
  pub record AreGood (jobs : List (JobProjection C)) : Type 0 where
    pub unique : distinct (job_ids jobs) ≡ true
    pub each : All IsGood jobs

  ids-Pairs : {js ks : List (JobProjection C)} → Pairs JobUpdate js ks → job_ids ks ≡ job_ids js
  ids-Pairs done = refl
  ids-Pairs (next h t) = cc (h.same_id, ids-Pairs t)

  pub Pairs-AreGood :
      {js ks : List (JobProjection C)} → Pairs JobUpdate js ks → AreGood js → AreGood ks
  Pairs-AreGood u g = record {
    unique = ap distinct (ids-Pairs u) ∙ g.unique;
    each = All-Pairs JobUpdate IsGood IsGood (λ x y h _. h.good) u g.each;
  }

  pub update_one-JobUpdate :
      (p : BatchProjection C) (type : EventType) (payload : Fields)
      → All IsGood p.jobs
      → Ensures (λ q. Pairs JobUpdate p.jobs q.jobs) (update_one codec p type payload)
  unfolding update_one
  update_one-JobUpdate p type payload h = Ensures-bind _ _ (λ id _. Ensures-bind _ _ (λ jobs u.
      Ensures-weaken _ _
        (λ q e. subst (Pairs JobUpdate p.jobs) (sym e) (
          (update_job-Pairs JobUpdate (λ j g. record { same_id = refl; good = g }) id
              (λ j. apply_to_job codec j type payload)
              (λ j g. apply_to_job-JobUpdate j type payload g) p.jobs h).at
            jobs u))
        (jobs-replace_jobs p jobs)))

  pub update_batch_config-JobUpdate :
      (p : BatchProjection C) (payload : Fields)
      → All IsGood p.jobs
      → Ensures (λ q. Pairs JobUpdate p.jobs q.jobs) (update_batch_config codec p payload)
  unfolding update_batch_config
  update_batch_config-JobUpdate p payload h = Ensures-raise_if _ _ _ (λ _.
      Ensures-bind _ _ (λ config _. Ensures-bind _ _ (λ earliest _. Ensures-raise_if _ _ _ (λ _.
        Ensures-bind _ _ (λ jobs u.
          Ensures-weaken _ _
            (λ q e.
              subst (Pairs JobUpdate p.jobs) (sym e)
                ((reconfigure_jobs-JobUpdate config earliest p.jobs h).at jobs u))
            (jobs-replace_jobs p jobs))))))

  absent :
      (id : String) (js : List (JobProjection C))
      → any (λ j. str_eq j.job_id id) js ≡ false
      → contains (job_ids js) id ≡ false
  absent id [] h = refl
  absent id (j ∷ js) h = ground (arith, absent id js)

  add-AreGood :
      (js : List (JobProjection C)) (id path : String) (config : C) (job : JobProjection C)
      → AreGood js
      → Builds codec id path config JobState.pending [] job
      → any (λ j. str_eq j.job_id id) js ≡ false
      → AreGood (js ++ job ∷ [])
  add-AreGood js id path config job g b fresh =
      let new = subst (λ k. contains (job_ids js) k ≡ false) (sym b.job_id) (absent id js fresh) in
      let sound =
        subst (All IsSound) (sym b.stages_given)
          (or_fresh-IsSound [] (stage_plan_for (codec.profile config)) tt) in
      record {
        unique = rw map-append (distinct-snoc (job_ids js) job.job_id g.unique new);
        each =
            All-append IsGood js (job ∷ []) g.each
              (record { planned = b.planned; sound = sound }, tt);
      }

  pub create_job-AreGood :
      (p : BatchProjection C) (payload : Fields)
      → AreGood p.jobs
      → Ensures (λ q. AreGood q.jobs) (create_job codec p payload)
  unfolding create_job
  create_job-AreGood p payload g = Ensures-bind _ _ (λ id _. Ensures-raise_if _ _ _ (λ fresh.
      Ensures-bind _ _ (λ path _. Ensures-bind _ _ (λ config _. Ensures-bind _ _ (λ job b.
        Ensures-weaken _ _
          (λ q e. subst AreGood (sym e) (
            add-AreGood p.jobs id path config job g
              ((job_projection-Builds codec id path config JobState.pending []).at job b) fresh))
          (jobs-replace_jobs p (p.jobs ++ job ∷ [])))))))
