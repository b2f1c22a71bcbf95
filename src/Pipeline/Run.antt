-- ===== src/Pipeline/Run.antt =====
-- core/application/durable_pipeline.py: the running of the jobs of a batch, stage after stage.
use video_captioner_z.Base.{
  String, Bool, true, false, not, ◌&&◌, ◌||◌, Option, none, some, List, [], ◌∷◌, ◌++◌, length, take,
  ◌==◌, str_eq, ltb, if◌then◌else◌, Result, ok, err, AppError, app_error,
}
use video_captioner_z.Json.{
  pos, Value, int, str, array, object, Items, nil, cons, Fields, field, end,
}
use video_captioner_z.Artifact.{ArtifactRef}
use video_captioner_z.Stage.{
  StageName, StageProjection, stage_value, stage_plan_for, index, is_committed,
}
use video_captioner_z.Job.{ConfigCodec, JobProjection, JobState}
use video_captioner_z.Batch.{is_state}
use video_captioner_z.Event.{job_succeeded, job_failed}
use video_captioner_z.JobEvents.{is_failed_or_cancelled}
use video_captioner_z.Service.{
  Act, returns, raises, pure, reads, ◌>>=◌, ◌>>◌, catches, call, ask, raises_if, job_of, stage_in,
  method, write_manifest, job_payload, EventFactory, append_event, reload,
}
use video_captioner_z.StageExecutor.{raise_if_cancelled, cancelled_error, execute}
use video_captioner_z.Pipeline.Cancellation.{acknowledge_cancel_requests}

-- What the service uses of the stage runners (the version of each), of the stages' part of a job's
-- configuration (`_cache_config`), and of the digest of a JSON value.
pub record StageRunners (C : Type 0) : Type 0 where
  pub version : StageName → Option String
  pub cache_config : C → StageName → String → Result Fields
  pub digest : Value → String

sha256_items : List ArtifactRef → Items
sha256_items [] = nil
sha256_items (a ∷ refs) = cons (str a.sha256) (sha256_items refs)

-- `derive_stage_cache_key`, up to the digest
unfoldable pub cache_key_payload : String → String → List ArtifactRef → Fields → Value
unfolding sha256_items
cache_key_payload name version inputs config = object (
    field "schema_version" (int (pos 1)) (
      field "stage_name" (str name) (
        field "stage_version" (str version) (
          field "input_artifact_sha256" (array (sha256_items inputs))
            (field "config" (object config) end)))))

-- the artifacts of the committed stages
unfoldable pub committed_artifacts : List StageProjection → List ArtifactRef
committed_artifacts [] = []
committed_artifacts (s ∷ stages) =
    if is_committed s.state
    then s.artifacts ++ committed_artifacts stages
    else committed_artifacts stages

abbrev pub batch_cancelled : AppError
batch_cancelled = app_error "operation.cancelled" "batch"

-- `exc.params.get("scope") == "batch"`
abbrev is_batch_scope : AppError → Bool
is_batch_scope e = str_eq e.reason "batch"

abbrev is_cancellation : AppError → Bool
is_cancellation e =
    str_eq e.code "operation.cancelled" || str_eq e.code "stage.cancellation_projection_failed"

runner_version : Option String → Result String
runner_version none = err (app_error "pipeline.runner_unavailable" "")
runner_version (some version) = ok version

module _ {C : Type 0} where
  -- `self._pause_requested()`, asked only where the stage is not committed
  unfoldable pub pauses_before : Bool → Act C Bool
  pauses_before true = returns false
  pauses_before false = ask

  unfoldable pub any_marked : List (JobProjection C) → Act C Bool
  any_marked [] = returns false
  any_marked (j ∷ jobs) = do marked ← ask; if marked then returns true else any_marked jobs

module _ {C : Type 0} (codec : ConfigCodec C) (factory : EventFactory)
    (runners : StageRunners C) where
  -- one round of the loop of `_run_job`, the stage known
  unfoldable pub run_stage : JobProjection C → StageName → Act C (Unit {0})
  unfolding runner_version cache_key_payload committed_artifacts
  run_stage job n = do
    version ← pure (runner_version (runners.version n))
    let plan = stage_plan_for (codec.profile job.config)
    let inputs = committed_artifacts (take (index n plan) job.stages)
    call
    config ← pure (runners.cache_config job.config n job.input_path)
    execute codec factory job.job_id n
        (runners.digest (cache_key_payload (stage_value n) version inputs config))

  -- The loop of `_run_job`; the answer says whether it came to its end, and not to a pause.
  unfoldable pub run_stages : String → List StageName → Act C Bool
  unfolding run_stage pauses_before
  run_stages id [] = returns true
  run_stages id (n ∷ plan) = do
    raise_if_cancelled
    job ← job_of id
    stage ← pure (stage_in job n)
    paused ← pauses_before (is_committed stage.state)
    if paused then returns false else (do run_stage job n; run_stages id plan)

  -- `except AppError` of `_run_job`, in part: what the journal is told of the error
  unfoldable pub record_error : String → AppError → Act C (Unit {0})
  record_error id e =
      if is_cancellation e then acknowledge_cancel_requests codec factory (some id) else (do
        job ← job_of id
        if not (str_eq e.code "stage.post_commit_failed")
              && not (is_state job.state JobState.failed)
            then (do append_event codec factory job_failed (job_payload id); write_manifest)
            else returns tt)

  -- the whole of it
  unfoldable pub job_failed_with : String → AppError → Act C Bool
  unfolding record_error
  job_failed_with id e = do
    reload codec
    batch ← ask
    record_error id e
    raises_if (is_cancellation e && batch) batch_cancelled
    raises_if (is_cancellation e && not (str_eq e.code "operation.cancelled")) cancelled_error
    raises e

  -- the cancellation that is found once all stages are committed
  unfoldable pub late_cancellation : String → AppError → Act C (Unit {0})
  late_cancellation id e =
      if str_eq e.code "operation.cancelled"
      then (do
        batch ← ask
        acknowledge_cancel_requests codec factory (some id)
        raises_if batch batch_cancelled
        raises e)
      else raises e

  unfoldable pub finish_job : String → Bool → Act C (Unit {0})
  unfolding late_cancellation
  finish_job id false = returns tt
  finish_job id true = do
    job ← job_of id
    if is_state job.state JobState.succeeded then returns tt else (do
      catches raise_if_cancelled (late_cancellation id)
      append_event codec factory job_succeeded (job_payload id)
      write_manifest
      call)

  -- `_run_job`
  unfoldable pub run_job : String → Act C (Unit {0})
  unfolding run_stages job_failed_with finish_job
  run_job id = method (do
    job ← job_of id
    completed ←
        catches (run_stages id (stage_plan_for (codec.profile job.config))) (job_failed_with id)
    finish_job id completed)

  -- `except AppError` in `run`: only a cancellation of one of several jobs lets the next run
  unfoldable pub next_job_after : AppError → Act C Bool
  next_job_after e = do
    p ← reads (λ w. w.held)
    if str_eq e.code "operation.cancelled" && ltb 1 (length p.jobs) && not (is_batch_scope e)
        then (do reload codec; returns false)
        else raises e

  -- the body of the loop of `run` after a job that did not raise: whether the loop goes on
  unfoldable pub after_job : Act C Bool
  after_job = do
    batch ← ask
    if batch
        then (do acknowledge_cancel_requests codec factory none; returns false)
        else (do paused ← ask; returns (not paused))

  -- the loop of `run` over the jobs, as they were when it began
  unfoldable pub run_jobs : List (JobProjection C) → Act C (Unit {0})
  unfolding run_job next_job_after after_job
  run_jobs [] = returns tt
  run_jobs (j ∷ jobs) =
      let rest = run_jobs jobs in
      if is_failed_or_cancelled j.state then rest else (do
        batch ← ask
        if batch
            then (do acknowledge_cancel_requests codec factory none; raises batch_cancelled)
            else returns tt
        paused ← ask
        if paused then returns tt else (do
          returned ← catches (do run_job j.job_id; returns true) next_job_after
          goes_on ← (if returned then after_job else returns true)
          if goes_on then rest else returns tt))

  -- the cancel requests that `run` finds before its loop
  unfoldable pub answer_requests : List (JobProjection C) → Act C (Unit {0})
  unfolding any_marked
  answer_requests jobs = do
    batch ← ask
    one ← any_marked jobs
    acknowledge_cancel_requests codec factory none
    raises_if batch batch_cancelled
    raises_if (one && (length jobs == 1)) cancelled_error

  -- `run`
  unfoldable pub run : Act C (Unit {0})
  unfolding answer_requests run_jobs any_marked
  run = method (do
    p ← reads (λ w. w.held)
    batch ← ask
    requested ← (if batch then returns true else any_marked p.jobs)
    if requested then answer_requests p.jobs else returns tt
    now ← reads (λ w. w.held)
    run_jobs now.jobs)
