-- ===== src/Tests/Journal.antt =====
-- Runs of the journal's replay.
use video_captioner_z.Base.{
  ◌≡◌, refl, ◌≢◌, some, List, [], ◌∷◌, map, take, All, Pairs, ℕ, Result, ok, err, ◌>>=◌, raise_if,
  arith,
}
use video_captioner_z.Stage.{
  PipelineProfile, deterministic, StageProjection, StageName-discrete, StageState, StageName,
  stage_projection, stage_plan_for, inspect, normalize, transcribe, segment, export, publish,
}
use video_captioner_z.Job.{
  JobState, JobProjection, validate_identifier, job_projection, replace_job, find_stage,
}
use video_captioner_z.Batch.{BatchProjection, batch_projection, JobState-discrete}
use video_captioner_z.Event.{
  JournalEvent, stage_started, job_config_updated, required_str, required_int,
}
use video_captioner_z.StageEvents.{is_blocked, terminal_stage, modify_stage, reset_suffix}
use video_captioner_z.JobEvents.{
  apply_to_job, apply_stage_event, retry_job, apply_job_terminal, required_stage, stage_of,
}
use video_captioner_z.Journal.{apply_event, replay}
use video_captioner_z.Journal.Chain.{IsLog, replay-IsLog}
use video_captioner_z.Journal.Steps.{apply_event-Steps}
use video_captioner_z.Journal.WellFormed.{
  IsWellFormed, apply_event-IsWellFormed, replay-IsWellFormed, planned,
}
use video_captioner_z.Job.Plan.{HasPlan}
use video_captioner_z.JobEvents.Steps.{JobStep}
use video_captioner_z.JobEvents.Guards.{Starts, stage_started-Starts}
use video_captioner_z.Journal.Completion.{replay-IsComplete}
use video_captioner_z.JobEvents.Completion.{IsComplete}
use video_captioner_z.Tests.Sample.{sample_codec, full_log, short_log, started, stage_payload}

abbrev blank : BatchProjection PipelineProfile
blank = record { batch_id = ""; jobs = []; last_event_seq = 0; event_ids = [] }

-- the batch that a log replays to
unfoldable pub run : List JournalEvent → BatchProjection PipelineProfile
unfolding replay apply_event batch_projection validate_identifier required_str job_projection
    stage_plan_for ◌>>=◌ raise_if apply_to_job apply_stage_event retry_job apply_job_terminal
    required_stage stage_of required_int replace_job StageName-discrete JobState-discrete is_blocked
    terminal_stage modify_stage reset_suffix find_stage
run log = value_of (replay sample_codec log)
  where
    value_of : Result (BatchProjection PipelineProfile) → BatchProjection PipelineProfile
    value_of (ok p) = p
    value_of (err e) = blank

full_states : map (λ j. j.state) (run full_log).jobs ≡ JobState.succeeded ∷ []
unfolding run
full_states = refl

replay-full_log : replay sample_codec full_log ≡ ok (run full_log)
unfolding run
replay-full_log = refl

pub replay-short_log : replay sample_codec short_log ≡ ok (run short_log)
unfolding run
replay-short_log = refl

replay-IsLog_example : IsLog sample_codec (run full_log) full_log
replay-IsLog_example = replay-IsLog sample_codec full_log (run full_log) replay-full_log

replay-IsWellFormed_example : IsWellFormed sample_codec (run full_log)
replay-IsWellFormed_example =
    replay-IsWellFormed sample_codec full_log (run full_log) replay-full_log

no_update : All (λ e. e.type ≢ job_config_updated) full_log
no_update = ground arith

replay-IsComplete_example : All IsComplete (run full_log).jobs
replay-IsComplete_example =
    replay-IsComplete sample_codec full_log (run full_log) no_update replay-full_log

abbrev created : List JournalEvent
created = take 2 full_log

replay-created : replay sample_codec created ≡ ok (run created)
unfolding run
replay-created = refl

accepts_started : apply_event sample_codec (some (run created)) started ≡ ok (run (take 3 full_log))
unfolding run
accepts_started = refl

created_planned : All (HasPlan sample_codec) (run created).jobs
created_planned =
    planned sample_codec (run created).jobs
      ((replay-IsWellFormed sample_codec created (run created) replay-created).good).each

apply_event-IsWellFormed_example : IsWellFormed sample_codec (run (take 3 full_log))
apply_event-IsWellFormed_example =
    apply_event-IsWellFormed sample_codec (run created) started (run (take 3 full_log))
      (replay-IsWellFormed sample_codec created (run created) replay-created) accepts_started

apply_event-Steps_example :
    Pairs (JobStep sample_codec) (run created).jobs (run (take 3 full_log)).jobs
apply_event-Steps_example =
    apply_event-Steps sample_codec (run created) started (run (take 3 full_log)) created_planned
      refl accepts_started

-- the job before and after its first stage starts
abbrev fresh_stages : List StageProjection
fresh_stages =
    map (λ n. stage_projection n StageState.pending 0)
      (inspect ∷ normalize ∷ transcribe ∷ segment ∷ export ∷ publish ∷ [])

abbrev fresh_job : JobProjection PipelineProfile
fresh_job = record {
  job_id = "job-1";
  input_path = "/in/a.mp4";
  config = deterministic;
  state = JobState.pending;
  stages = fresh_stages;
}

abbrev started_job : JobProjection PipelineProfile
started_job = record fresh_job {
  state = JobState.running;
  stages =
      stage_projection inspect StageState.running 1
      ∷ map (λ n. stage_projection n StageState.pending 0)
          (normalize ∷ transcribe ∷ segment ∷ export ∷ publish ∷ []);
}

starts :
    apply_to_job sample_codec fresh_job stage_started (stage_payload "inspect" 1) ≡ ok started_job
unfolding run
starts = refl

fresh_planned : HasPlan sample_codec fresh_job
unfolding stage_plan_for
fresh_planned = refl

stage_started-Starts_example :
    (n : StageName) × (attempt : ℕ) × (s : StageProjection) × (required_stage
        (stage_payload "inspect" 1)
        "stage_name"
      ≡ ok n)
    × (required_int (stage_payload "inspect" 1) "attempt" ≡ ok attempt)
    × Starts sample_codec fresh_job started_job n attempt s
stage_started-Starts_example =
    stage_started-Starts sample_codec fresh_job fresh_planned (stage_payload "inspect" 1)
      started_job starts
