-- ===== src/Job/Plan.antt =====
-- core/domain/job.py: what the constructor of a job projection guarantees.
use video_captioner_z.Base.{
  String, ◌≡◌, refl, ◌∙◌, true, List, [], ◌∷◌, arith, Ensures, Ensures-ok, Ensures-bind,
  Ensures-raise_if, Ensures-weaken,
}
use video_captioner_z.Stage.{
  StageName, StageProjection, PipelineProfile, deterministic, fast, quality, stage_plan_for,
}
use video_captioner_z.Job.{
  ConfigCodec, JobProjection, JobState, stage_names, same_names, or_fresh, job_projection,
  replace_job,
}

same_names_sound : (xs ys : List StageName) → same_names xs ys ≡ true → xs ≡ ys
unfolding same_names
same_names_sound [] [] h = refl
same_names_sound [] (y ∷ ys) h = absurd (cc)
same_names_sound (x ∷ xs) [] h = absurd (cc)
same_names_sound (x ∷ xs) (y ∷ ys) h = ground (arith, same_names_sound xs ys)

module _ {C : Type 0} (codec : ConfigCodec C) where
  -- The stages are those of the profile's plan, in its order.
  abbrev pub HasPlan : JobProjection C → Type 0
  HasPlan j = stage_names j.stages ≡ stage_plan_for (codec.profile j.config)

  -- What the constructor returns: its arguments, with the stages of the plan where none are given.
  pub record Builds (id path : String) (config : C) (state : JobState)
      (given : List StageProjection) (j : JobProjection C) : Type 0 where
    pub job_id : j.job_id ≡ id
    pub path_given : j.input_path ≡ path
    pub config_given : j.config ≡ config
    pub state_given : j.state ≡ state
    pub stages_given : j.stages ≡ or_fresh given (stage_plan_for (codec.profile config))
    pub planned : HasPlan j

  pub job_projection-Builds :
      (id path : String) (config : C) (state : JobState) (given : List StageProjection)
      → Ensures
          (Builds id path config state given)
          (job_projection codec id path config state given)
  unfolding job_projection
  job_projection-Builds id path config state given =
      let plan = stage_plan_for (codec.profile config) in
      Ensures-bind _ _ (λ _ _. Ensures-raise_if _ _ _ (λ _. Ensures-raise_if _ _ _ (λ h.
        Ensures-ok _ (record {
          job_id = refl;
          path_given = refl;
          config_given = refl;
          state_given = refl;
          stages_given = refl;
          planned = same_names_sound (stage_names (or_fresh given plan)) plan (ground arith);
        }))))

  or_fresh-eq_of_plan :
      (profile : PipelineProfile) (given : List StageProjection)
      → stage_names given ≡ stage_plan_for profile
      → or_fresh given (stage_plan_for profile) ≡ given
  unfolding or_fresh stage_plan_for
  or_fresh-eq_of_plan deterministic [] h = absurd (cc)
  or_fresh-eq_of_plan fast [] h = absurd (cc)
  or_fresh-eq_of_plan quality [] h = absurd (cc)
  or_fresh-eq_of_plan _ (s ∷ ss) h = refl

  -- `replace` of the state and of stages with the plan's names changes just those.
  pub record Replaces (j : JobProjection C) (state : JobState) (stages : List StageProjection)
      (k : JobProjection C) : Type 0 where
    pub job_id : k.job_id ≡ j.job_id
    pub config : k.config ≡ j.config
    pub state_given : k.state ≡ state
    pub stages_given : k.stages ≡ stages
    pub planned : HasPlan k

  pub replace_job-Replaces :
      (j : JobProjection C) (state : JobState) (stages : List StageProjection)
      → HasPlan j
      → stage_names stages ≡ stage_names j.stages
      → Ensures (Replaces j state stages) (replace_job codec j j.config state stages)
  unfolding replace_job
  replace_job-Replaces j state stages p n =
      Ensures-weaken _ _
        (λ k b. record {
          job_id = b.job_id;
          config = b.config_given;
          state_given = b.state_given;
          stages_given =
              b.stages_given ∙ or_fresh-eq_of_plan (codec.profile j.config) stages (n ∙ p);
          planned = b.planned;
        })
        (job_projection-Builds j.job_id j.input_path j.config state stages)
