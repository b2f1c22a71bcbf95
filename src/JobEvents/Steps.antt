-- ===== src/JobEvents/Steps.antt =====
-- core/domain/journal.py: every event of a job but `job.config_updated` takes each of its stages
-- one step of the abstract machine, or leaves it, and keeps the job's identity and configuration.
use video_captioner_z.Base.{
  ◌≢◌, ℕ, ◌≡◌, refl, sym, subst, Option, none, some, List, arith, ok, Ensures, Ensures-err,
  Ensures-bind, Ensures-raise_if, Ensures-weaken, Pairs, Pairs-refl,
}
use video_captioner_z.Json.{Fields}
use video_captioner_z.Stage.{StageName, StageProjection, running, stage_projection}
use video_captioner_z.Job.{ConfigCodec, JobProjection, JobState, find_stage, replace_job}
use video_captioner_z.Job.Plan.{HasPlan, replace_job-Replaces}
use video_captioner_z.Event.{
  EventType, job_config_updated, job_retry_requested, stage_started, stage_invalidated,
  stage_interrupted, stage_committed, stage_failed, stage_cancelled, job_succeeded, job_failed,
  job_cancelled,
}
use video_captioner_z.StageEvents.Steps.{
  StageStep, stay, start, modify_stage-Pairs, name-find_stage, invalidate_suffix-Steps,
  reset_suffix-Steps, stage_names-Steps,
}
use video_captioner_z.StageEvents.Terminal.{terminal_stage-StageStep}
use video_captioner_z.JobEvents.{
  stage_of, found_stage, stage_start, stage_invalidate, stage_finish, stage_transition,
  apply_stage_event, retry_job, decide_terminal, apply_job_terminal, apply_to_job,
}

pub stage_of-find_stage :
    (stages : List StageProjection) (n : StageName)
    → Ensures (λ s. find_stage n stages ≡ some s) (stage_of stages n)
unfolding stage_of
stage_of-find_stage stages n = record { at = λ s h. found (find_stage n stages) s h }
  where
    found : (o : Option StageProjection) (s : StageProjection) → found_stage o ≡ ok s → o ≡ some s
    found none s h = absurd (cc)
    found (some t) s h = cc

module _ {C : Type 0} (codec : ConfigCodec C) where
  -- The job's stages each make at most one step; its identity and configuration stay.
  pub record JobStep (j k : JobProjection C) : Type 0 where
    pub same_id : k.job_id ≡ j.job_id
    pub same_config : k.config ≡ j.config
    pub steps : Pairs StageStep j.stages k.stages
    pub planned : HasPlan codec k

  replace-JobStep :
      (j : JobProjection C) (state : JobState) (stages : List StageProjection)
      → HasPlan codec j
      → Pairs StageStep j.stages stages
      → Ensures (JobStep j) (replace_job codec j j.config state stages)
  replace-JobStep j state stages p s =
      Ensures-weaken _ _
        (λ k r. record {
          same_id = r.job_id;
          same_config = r.config;
          steps = subst (Pairs StageStep j.stages) (sym r.stages_given) s;
          planned = r.planned;
        })
        (replace_job-Replaces codec j state stages p (stage_names-Steps s))

  module _ (j : JobProjection C) (p : HasPlan codec j) where
    start-JobStep :
        (n : StageName) (attempt : ℕ) (s : StageProjection)
        → find_stage n j.stages ≡ some s
        → Ensures (JobStep j) (stage_start codec j n attempt s)
    unfolding stage_start
    start-JobStep n attempt s f = Ensures-raise_if _ _ _ (λ a. Ensures-raise_if _ _ _ (λ _.
        replace-JobStep j JobState.running _ p (
          modify_stage-Pairs StageStep n (λ _. stage_projection n running attempt) s j.stages
            (λ x. stay) f
            (subst (λ m. StageStep s (stage_projection m running attempt))
              (name-find_stage n s j.stages f) (start attempt (ground arith) (ground arith))))))

    invalidate-JobStep :
        (n : StageName) (attempt : ℕ) (s : StageProjection)
        → Ensures (JobStep j) (stage_invalidate codec j n attempt s)
    unfolding stage_invalidate
    invalidate-JobStep n attempt s =
        Ensures-raise_if _ _ _
          (λ _. replace-JobStep j JobState.pending _ p (invalidate_suffix-Steps n j.stages))

    finish-JobStep :
        (type : EventType) (n : StageName) (attempt : ℕ) (s : StageProjection) (payload : Fields)
        → find_stage n j.stages ≡ some s
        → Ensures (JobStep j) (stage_finish codec j type n attempt s payload)
    unfolding stage_finish
    finish-JobStep type n attempt s payload f = Ensures-raise_if _ _ _ (λ a.
        Ensures-bind _ _ (λ r h. replace-JobStep j r.1 _ p (
          modify_stage-Pairs StageStep n (λ _. r.0) s j.stages (λ x. stay) f
            ((terminal_stage-StageStep type s payload (ground arith)).at r h))))

    transition-JobStep :
        (type : EventType) (n : StageName) (attempt : ℕ) (s : StageProjection) (payload : Fields)
        → find_stage n j.stages ≡ some s
        → Ensures (JobStep j) (stage_transition codec j type n attempt s payload)
    unfolding stage_transition
    transition-JobStep stage_started n attempt s payload f = start-JobStep n attempt s f
    transition-JobStep stage_invalidated n attempt s payload f = invalidate-JobStep n attempt s
    transition-JobStep type n attempt s payload f = finish-JobStep type n attempt s payload f

    apply_stage_event-JobStep :
        (type : EventType) (payload : Fields)
        → Ensures (JobStep j) (apply_stage_event codec j type payload)
    unfolding apply_stage_event
    apply_stage_event-JobStep type payload = Ensures-bind _ _ (λ n _. Ensures-bind _ _ (λ attempt _.
        Ensures-bind _ _ (λ s h.
          transition-JobStep type n attempt s payload ((stage_of-find_stage j.stages n).at s h))))

    retry_job-JobStep : (payload : Fields) → Ensures (JobStep j) (retry_job codec j payload)
    unfolding retry_job
    retry_job-JobStep payload = Ensures-bind _ _ (λ n _. Ensures-bind _ _ (λ s _.
        Ensures-raise_if _ _ _ (λ _.
          Ensures-raise_if _ _ _
            (λ _. replace-JobStep j JobState.pending _ p (reset_suffix-Steps n j.stages)))))

    keep-JobStep :
        (state : JobState) → Ensures (JobStep j) (replace_job codec j j.config state j.stages)
    keep-JobStep state =
        replace-JobStep j state j.stages p (Pairs-refl StageStep (λ x. stay) j.stages)

    decide_terminal-JobStep :
        (type : EventType) → Ensures (JobStep j) (decide_terminal codec j type)
    unfolding decide_terminal
    decide_terminal-JobStep job_succeeded = Ensures-raise_if _ _ _ (λ _. keep-JobStep _)
    decide_terminal-JobStep job_cancelled = Ensures-raise_if _ _ _ (λ _. keep-JobStep _)
    decide_terminal-JobStep job_failed = Ensures-raise_if _ _ _ (λ _. keep-JobStep _)
    decide_terminal-JobStep _ = Ensures-err _

    apply_job_terminal-JobStep :
        (type : EventType) → Ensures (JobStep j) (apply_job_terminal codec j type)
    unfolding apply_job_terminal
    apply_job_terminal-JobStep type = Ensures-raise_if _ _ _ (λ _. decide_terminal-JobStep type)

    -- `job.config_updated` is the one event of a job that is no such step.
    pub apply_to_job-JobStep :
        (type : EventType) (payload : Fields)
        → type ≢ job_config_updated
        → Ensures (JobStep j) (apply_to_job codec j type payload)
    unfolding apply_to_job
    apply_to_job-JobStep job_config_updated payload h = absurd (h refl)
    apply_to_job-JobStep job_retry_requested payload h = retry_job-JobStep payload
    apply_to_job-JobStep stage_started payload h = apply_stage_event-JobStep _ payload
    apply_to_job-JobStep stage_interrupted payload h = apply_stage_event-JobStep _ payload
    apply_to_job-JobStep stage_committed payload h = apply_stage_event-JobStep _ payload
    apply_to_job-JobStep stage_failed payload h = apply_stage_event-JobStep _ payload
    apply_to_job-JobStep stage_cancelled payload h = apply_stage_event-JobStep _ payload
    apply_to_job-JobStep stage_invalidated payload h = apply_stage_event-JobStep _ payload
    apply_to_job-JobStep type payload h = apply_job_terminal-JobStep type
