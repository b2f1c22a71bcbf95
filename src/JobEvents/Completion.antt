-- ===== src/JobEvents/Completion.antt =====
-- core/domain/journal.py: a job that has succeeded has all its stages committed.
use video_captioner_z.Base.{
  ℕ, ◌≡◌, ◌≢◌, refl, sym, ◌∙◌, subst, true, false, not, List, [], ◌∷◌, any, all, arith, Ensures,
  Ensures-ok, Ensures-err, Ensures-bind, Ensures-raise_if, Ensures-weaken,
}
use video_captioner_z.Json.{Fields}
use video_captioner_z.Stage.{StageName, StageProjection, is_committed}
use video_captioner_z.Job.{ConfigCodec, JobProjection, JobState, replace_job}
use video_captioner_z.Job.Plan.{HasPlan, replace_job-Replaces, job_projection-Builds}
use video_captioner_z.Event.{
  EventType, job_config_updated, job_retry_requested, stage_started, stage_invalidated,
  stage_interrupted, stage_committed, stage_failed, stage_cancelled, job_succeeded, job_failed,
  job_cancelled,
}
use video_captioner_z.StageEvents.{commit_stage, terminal_stage}
use video_captioner_z.JobEvents.{
  stage_transition, apply_stage_event, retry_job, decide_terminal, apply_job_terminal, apply_to_job,
}

module _ {C : Type 0} where
  abbrev pub IsComplete : JobProjection C → Type 0
  IsComplete j = j.state ≡ JobState.succeeded → all (λ s. is_committed s.state) j.stages ≡ true

module _ {C : Type 0} (codec : ConfigCodec C) where
  -- a job whose state is set to another than `succeeded`
  pub replace-IsComplete :
      (j : JobProjection C) (config : C) (state : JobState) (stages : List StageProjection)
      → state ≢ JobState.succeeded
      → Ensures IsComplete (replace_job codec j config state stages)
  unfolding replace_job
  replace-IsComplete j config state stages n =
      Ensures-weaken _ _ (λ k b e. absurd (n (sym b.state_given ∙ e)))
        (job_projection-Builds codec j.job_id j.input_path config state stages)

  commit_stage-state :
      (s : StageProjection) (payload : Fields)
      → Ensures
          (λ (r : StageProjection × JobState). r.1 ≢ JobState.succeeded)
          (commit_stage s payload)
  unfolding commit_stage
  commit_stage-state s payload = Ensures-bind _ _ (λ _ _.
      Ensures-raise_if _ _ _
        (λ _. Ensures-bind _ _ (λ _ _. Ensures-raise_if _ _ _ (λ _. Ensures-ok _ (λ e. cc)))))

  terminal_stage-state :
      (type : EventType) (s : StageProjection) (payload : Fields)
      → Ensures
          (λ (r : StageProjection × JobState). r.1 ≢ JobState.succeeded)
          (terminal_stage type s payload)
  unfolding terminal_stage
  terminal_stage-state stage_interrupted s payload = Ensures-ok _ (λ e. cc)
  terminal_stage-state stage_failed s payload = Ensures-ok _ (λ e. cc)
  terminal_stage-state stage_cancelled s payload = Ensures-ok _ (λ e. cc)
  terminal_stage-state stage_committed s payload = commit_stage-state s payload
  terminal_stage-state _ s payload = Ensures-err _

  module _ (j : JobProjection C) where
    transition-IsComplete :
        (type : EventType) (n : StageName) (attempt : ℕ) (s : StageProjection) (payload : Fields)
        → Ensures IsComplete (stage_transition codec j type n attempt s payload)
    unfolding stage_transition
    transition-IsComplete stage_started n attempt s payload =
        Ensures-raise_if _ _ _
          (λ _. Ensures-raise_if _ _ _ (λ _. replace-IsComplete j _ _ _ (λ e. cc)))
    transition-IsComplete stage_invalidated n attempt s payload =
        Ensures-raise_if _ _ _ (λ _. replace-IsComplete j _ _ _ (λ e. cc))
    transition-IsComplete type n attempt s payload = Ensures-raise_if _ _ _ (λ _.
        Ensures-bind _ _
          (λ r h. replace-IsComplete j _ _ _ ((terminal_stage-state type s payload).at r h)))

    apply_stage_event-IsComplete :
        (type : EventType) (payload : Fields)
        → Ensures IsComplete (apply_stage_event codec j type payload)
    unfolding apply_stage_event
    apply_stage_event-IsComplete type payload = Ensures-bind _ _ (λ n _.
        Ensures-bind _ _
          (λ attempt _. Ensures-bind _ _ (λ s _. transition-IsComplete type n attempt s payload)))

    retry_job-IsComplete : (payload : Fields) → Ensures IsComplete (retry_job codec j payload)
    unfolding retry_job
    retry_job-IsComplete payload = Ensures-bind _ _ (λ n _. Ensures-bind _ _ (λ s _.
        Ensures-raise_if _ _ _
          (λ _. Ensures-raise_if _ _ _ (λ _. replace-IsComplete j _ _ _ (λ e. cc)))))

    all_committed :
        (stages : List StageProjection)
        → any (λ s. not (is_committed s.state)) stages ≡ false
        → all (λ s. is_committed s.state) stages ≡ true
    all_committed [] h = refl
    all_committed (s ∷ ss) h = ground (arith, all_committed ss)

    decide_terminal-IsComplete :
        HasPlan codec j → (type : EventType) → Ensures IsComplete (decide_terminal codec j type)
    unfolding decide_terminal
    decide_terminal-IsComplete p job_succeeded = Ensures-raise_if _ _ _ (λ h.
        Ensures-weaken _ _
          (λ k r _.
            subst (λ ss. all (λ s. is_committed s.state) ss ≡ true) (sym r.stages_given)
              (all_committed j.stages h))
          (replace_job-Replaces codec j _ j.stages p refl))
    decide_terminal-IsComplete p job_cancelled =
        Ensures-raise_if _ _ _ (λ _. replace-IsComplete j _ _ _ (λ e. cc))
    decide_terminal-IsComplete p job_failed =
        Ensures-raise_if _ _ _ (λ _. replace-IsComplete j _ _ _ (λ e. cc))
    decide_terminal-IsComplete p _ = Ensures-err _

    apply_job_terminal-IsComplete :
        HasPlan codec j → (type : EventType) → Ensures IsComplete (apply_job_terminal codec j type)
    unfolding apply_job_terminal
    apply_job_terminal-IsComplete p type =
        Ensures-raise_if _ _ _ (λ _. decide_terminal-IsComplete p type)

    -- Whatever event of a job but `job.config_updated` is accepted, if it leaves the job succeeded
    -- then all stages are committed.
    pub apply_to_job-IsComplete :
        (type : EventType) (payload : Fields)
        → HasPlan codec j
        → type ≢ job_config_updated
        → Ensures IsComplete (apply_to_job codec j type payload)
    unfolding apply_to_job
    apply_to_job-IsComplete job_config_updated payload p h = absurd (h refl)
    apply_to_job-IsComplete job_retry_requested payload p h = retry_job-IsComplete payload
    apply_to_job-IsComplete stage_started payload p h = apply_stage_event-IsComplete _ payload
    apply_to_job-IsComplete stage_interrupted payload p h = apply_stage_event-IsComplete _ payload
    apply_to_job-IsComplete stage_committed payload p h = apply_stage_event-IsComplete _ payload
    apply_to_job-IsComplete stage_failed payload p h = apply_stage_event-IsComplete _ payload
    apply_to_job-IsComplete stage_cancelled payload p h = apply_stage_event-IsComplete _ payload
    apply_to_job-IsComplete stage_invalidated payload p h = apply_stage_event-IsComplete _ payload
    apply_to_job-IsComplete type payload p h = apply_job_terminal-IsComplete p type
