-- ===== src/JobEvents.antt =====
-- core/domain/journal.py: what an event does to one job.
pub mod Steps
pub mod Completion
pub mod Guards
use video_captioner_z.Base.{
  ℕ, String, Bool, true, false, not, ◌&&◌, ◌||◌, Option, none, some, List, any, leb, ◌==◌, Result,
  ok, ◌>>=◌, ◌>>◌, raise_if, app_error,
}
use video_captioner_z.Json.{Fields, get}
use video_captioner_z.Stage.{
  StageName, StageProjection, stage_name, stage_plan_for, running, stage_projection, is_committed,
  is_pending, is_running,
}
use video_captioner_z.Job.{JobState, ConfigCodec, JobProjection, replace_job, find_stage}
use video_captioner_z.Batch.{is_state}
use video_captioner_z.Event.{
  EventType, job_config_updated, job_retry_requested, stage_started, stage_invalidated,
  stage_interrupted, stage_committed, stage_failed, stage_cancelled, job_succeeded, job_failed,
  job_cancelled, transition_invalid, required_str, required_int,
}
use video_captioner_z.StageEvents.{
  modify_stage, invalidate_suffix, reset_suffix, is_blocked, terminal_stage, reconfigure_stages,
}

named_stage : Option StageName → Result StageName
named_stage none = transition_invalid "stage_name"
named_stage (some n) = ok n

-- `StageName(_required_str(payload, key))`
unfoldable pub required_stage : Fields → String → Result StageName
unfolding named_stage required_str stage_name
required_stage payload key = do s ← required_str payload key; named_stage (stage_name s)

found_stage : Option StageProjection → Result StageProjection
found_stage none = transition_invalid "stage_unavailable"
found_stage (some s) = ok s

-- `job.stage(name)`, its error turned into that of the journal
unfoldable pub stage_of : List StageProjection → StageName → Result StageProjection
unfolding found_stage find_stage
stage_of stages n = found_stage (find_stage n stages)

abbrev pub is_failed_or_cancelled : JobState → Bool
is_failed_or_cancelled JobState.failed = true
is_failed_or_cancelled JobState.cancelled = true
is_failed_or_cancelled _ = false

-- the job states from which `job.cancelled` is accepted, once `succeeded` is ruled out
abbrev pub may_cancel : JobState → Bool
may_cancel JobState.pending = true
may_cancel JobState.running = true
may_cancel JobState.interrupted = true
may_cancel JobState.cancelled = true
may_cancel _ = false

abbrev pub may_fail : JobState → Bool
may_fail JobState.pending = true
may_fail JobState.running = true
may_fail JobState.failed = true
may_fail _ = false

module _ {C : Type 0} (codec : ConfigCodec C) where
  stage_start : JobProjection C → StageName → ℕ → StageProjection → Result (JobProjection C)
  stage_start job n attempt current = do
    raise_if (leb attempt current.attempt || is_running current.state)
        (app_error "journal.transition_invalid" "attempt_reused")
    raise_if (is_blocked job.stages n)
        (app_error "journal.transition_invalid" "dependency_not_committed")
    let stages = modify_stage n (λ _. stage_projection n running attempt) job.stages
    replace_job codec job job.config JobState.running stages

  stage_invalidate : JobProjection C → StageName → ℕ → StageProjection → Result (JobProjection C)
  stage_invalidate job n attempt current = do
    raise_if (not (attempt == current.attempt) || not (is_committed current.state))
        (app_error "journal.transition_invalid" "not_committed")
    replace_job codec job job.config JobState.pending (invalidate_suffix n job.stages)

  stage_finish :
      JobProjection C
      → EventType
      → StageName
      → ℕ
      → StageProjection
      → Fields
      → Result (JobProjection C)
  stage_finish job type n attempt current payload = do
    raise_if (not (is_running current.state) || not (current.attempt == attempt))
        (app_error "journal.transition_invalid" "attempt_not_running")
    (replacement, state) ← terminal_stage type current payload
    replace_job codec job job.config state (modify_stage n (λ _. replacement) job.stages)

  pub stage_transition :
      JobProjection C
      → EventType
      → StageName
      → ℕ
      → StageProjection
      → Fields
      → Result (JobProjection C)
  unfolding stage_start stage_invalidate stage_finish
  stage_transition job stage_started n attempt current payload = stage_start job n attempt current
  stage_transition job stage_invalidated n attempt current payload =
      stage_invalidate job n attempt current
  stage_transition job type n attempt current payload =
      stage_finish job type n attempt current payload

  -- `_apply_stage_event`
  unfoldable pub apply_stage_event : JobProjection C → EventType → Fields → Result (JobProjection C)
  unfolding stage_transition
  apply_stage_event job type payload = do
    n ← required_stage payload "stage_name"
    attempt ← required_int payload "attempt"
    current ← stage_of job.stages n
    stage_transition job type n attempt current payload

  -- `_retry_job`
  unfoldable pub retry_job : JobProjection C → Fields → Result (JobProjection C)
  retry_job job payload = do
    n ← required_stage payload "stage_name"
    current ← stage_of job.stages n
    raise_if (is_pending current.state && not (is_failed_or_cancelled job.state))
        (app_error "journal.transition_invalid" "retry_pending")
    raise_if (is_blocked job.stages n) (app_error "journal.transition_invalid" "retry_dependency")
    replace_job codec job job.config JobState.pending (reset_suffix n job.stages)

  pub decide_terminal : JobProjection C → EventType → Result (JobProjection C)
  decide_terminal job job_succeeded = do
    raise_if (any (λ s. not (is_committed s.state)) job.stages)
        (app_error "journal.transition_invalid" "stages_uncommitted")
    replace_job codec job job.config JobState.succeeded job.stages
  decide_terminal job job_cancelled = do
    raise_if (not (may_cancel job.state))
        (app_error "journal.transition_invalid" "job_not_cancelled")
    replace_job codec job job.config JobState.cancelled job.stages
  decide_terminal job job_failed = do
    raise_if (not (may_fail job.state)) (app_error "journal.transition_invalid" "job_not_failed")
    replace_job codec job job.config JobState.failed job.stages
  decide_terminal job _ = transition_invalid "job_event"

  -- `_apply_job_terminal`
  unfoldable pub apply_job_terminal : JobProjection C → EventType → Result (JobProjection C)
  unfolding decide_terminal
  apply_job_terminal job type = do
    raise_if (is_state job.state JobState.succeeded)
        (app_error "journal.transition_invalid" "job_terminal")
    decide_terminal job type

  -- the branches of `_apply_payload` that change one job
  unfoldable pub apply_to_job : JobProjection C → EventType → Fields → Result (JobProjection C)
  apply_to_job job job_config_updated payload = do
    config ← codec.decode (get payload "config")
    replace_job codec job config job.state
        (reconfigure_stages (stage_plan_for (codec.profile config)) none job.stages)
  apply_to_job job job_retry_requested payload = retry_job job payload
  apply_to_job job stage_started payload = apply_stage_event job stage_started payload
  apply_to_job job stage_interrupted payload = apply_stage_event job stage_interrupted payload
  apply_to_job job stage_committed payload = apply_stage_event job stage_committed payload
  apply_to_job job stage_failed payload = apply_stage_event job stage_failed payload
  apply_to_job job stage_cancelled payload = apply_stage_event job stage_cancelled payload
  apply_to_job job stage_invalidated payload = apply_stage_event job stage_invalidated payload
  apply_to_job job type payload = apply_job_terminal job type
