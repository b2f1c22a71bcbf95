-- ===== src/Pipeline.antt =====
-- core/application/durable_pipeline.py: the durable batch service, over the journal.
-- A stage runner is known by its version, and its work is a call of the stage executor. The
-- projection that a method is given or returns is the one at hand in the `World`; a method that
-- raises leaves its caller with the projection that the caller had.
pub mod Cancellation
pub mod Repair
pub mod Run
pub mod Coherence
pub mod Running
pub mod Status
pub mod Prefix
pub mod Recoverable
use Prim.Native.String
use video_captioner_z.Base.{
  ℕ, suc, String, Bool, true, false, not, ◌||◌, Option, none, some, List, [], ◌∷◌, ◌++◌, any, all,
  contains, str_eq, if◌then◌else◌, AppError, app_error,
}
use video_captioner_z.Json.{Value, str, Fields, field, end}
use video_captioner_z.Artifact.{ArtifactRef}
use video_captioner_z.Stage.{
  StageName, StageProjection, stage_value, is_stage, is_committed, publish,
}
use video_captioner_z.Job.{ConfigCodec, JobProjection}
use video_captioner_z.Event.{
  batch_config_updated, job_config_updated, job_retry_requested, stage_invalidated,
}
use video_captioner_z.Service.{
  World, Act, returns, raises, pure, reads, ◌>>=◌, ◌>>◌, catches, call, ask_word, raises_if, job_of,
  stage_in, write_manifest, stage_payload, EventFactory, propose, append_event, reload, refresh,
  read_snapshot, method,
}
use video_captioner_z.Pipeline.Cancellation.{acknowledge_cancel_requests}
use video_captioner_z.Pipeline.Repair.{invalidate_corrupt_artifacts, interrupt_open_attempts}
use video_captioner_z.Pipeline.Run.{StageRunners, run}

-- `IntegrityIssue`
pub record IntegrityIssue : Type 0 where
  pub job_id : String
  pub stage_name : String
  pub code : String

abbrev issue : String → String → String → IntegrityIssue
issue id name code = record { job_id = id; stage_name = name; code = code }

issue_of : String → StageName → Option String → List IntegrityIssue
issue_of id n none = []
issue_of id n (some code) = issue id (stage_value n) code ∷ []

publication_found : String → StageName → Option String → List IntegrityIssue
publication_found id n none = []
publication_found id n (some code) = issue id (stage_value n) "output.publication_invalid" ∷ []

-- `status` is what `manifest.inspect` says
manifest_issues : String → String → List IntegrityIssue
manifest_issues id status =
    if str_eq status "current"
    then []
    else issue id "manifest" (String.◌++◌ "manifest." status) ∷ []

module _ {C : Type 0} where
  -- the code of the error of a call, if it is one of those expected
  unfoldable pub finds_code : (String → Bool) → Act C (Option String)
  finds_code expected =
      catches (do call; returns none)
        (λ e. if expected e.code then returns (some e.code) else raises e)

  unfoldable pub blob_issues : String → StageName → List ArtifactRef → Act C (List IntegrityIssue)
  unfolding finds_code issue_of
  blob_issues id n [] = returns []
  blob_issues id n (a ∷ refs) = do
    code ← finds_code (λ code. str_eq code "artifact.missing" || str_eq code "artifact.corrupt")
    rest ← blob_issues id n refs
    returns (issue_of id n code ++ rest)

  -- the external state of a stage, any error of which is an issue
  unfoldable pub check_publication : String → StageName → Act C (List IntegrityIssue)
  unfolding finds_code publication_found
  check_publication id n = do
    code ← finds_code (λ code. true)
    returns (publication_found id n code)

  unfoldable pub publication_issues :
      String → StageName → List IntegrityIssue → Act C (List IntegrityIssue)
  unfolding check_publication
  publication_issues id n (i ∷ issues) = returns (i ∷ issues)
  publication_issues id n [] = if is_stage n publish then check_publication id n else returns []

  unfoldable pub stage_issues : String → List StageProjection → Act C (List IntegrityIssue)
  unfolding blob_issues publication_issues
  stage_issues id [] = returns []
  stage_issues id (s ∷ stages) = do
    found ←
        (if is_committed s.state
          then (do blobs ← blob_issues id s.name s.artifacts; publication_issues id s.name blobs)
          else returns [])
    rest ← stage_issues id stages
    returns (found ++ rest)

  unfoldable pub job_issues : List (JobProjection C) → Act C (List IntegrityIssue)
  unfolding stage_issues
  job_issues [] = returns []
  job_issues (j ∷ jobs) = do
    found ← stage_issues j.job_id j.stages
    rest ← job_issues jobs
    returns (found ++ rest)

  unfoldable pub raise_first : List IntegrityIssue → Act C (Unit {0})
  raise_first [] = returns tt
  raise_first (i ∷ issues) = raises (app_error i.code "")

module _ {C : Type 0} (codec : ConfigCodec C) (factory : EventFactory) (runners : StageRunners C)
    (to_dict : C → Value) where
  -- `read_status`; an empty journal is an error of its replay
  unfoldable pub read_status : Act C (List IntegrityIssue)
  unfolding job_issues manifest_issues
  read_status = do
    read_snapshot
    refresh codec
    p ← reads (λ w. w.held)
    raises_if (not (one_runtime p.jobs)) (app_error "batch.config_inconsistent" "runtime")
    status ← ask_word
    found ← job_issues p.jobs
    returns (manifest_issues p.batch_id status ++ found)
    where
      one_runtime : List (JobProjection C) → Bool
      one_runtime [] = true
      one_runtime (j ∷ jobs) = all (λ k. codec.same_signature j.config k.config) jobs

  -- `status`
  unfoldable pub status : Act C (Unit {0})
  unfolding read_status raise_first
  status = method (do issues ← read_status; raise_first issues)

  -- `resume`; an empty journal is an error of its replay, as it is of `resume`
  unfoldable pub resume : Act C (Unit {0})
  resume = method (do
    reload codec
    call
    interrupt_open_attempts codec factory
    invalidate_corrupt_artifacts codec factory
    acknowledge_cancel_requests codec factory none
    call
    call
    run codec factory runners)

  -- `retry`
  unfoldable pub retry : String → StageName → Act C (Unit {0})
  unfolding status
  retry id n = method (do
    status
    append_event codec factory job_retry_requested
        (field "job_id" (str id) (field "stage_name" (str (stage_value n)) end))
    write_manifest
    run codec factory runners)

  abbrev batch_config : C → StageName → Fields
  batch_config config earliest =
      field "config" (to_dict config) (field "earliest_stage" (str (stage_value earliest)) end)

  -- `update_config` of the batch, with its four fault points: the event is made and applied before
  -- the first of them, and written after it
  unfoldable pub update_batch : C → StageName → Act C (Unit {0})
  update_batch config earliest = method (do
    proposed ←
        reads (λ w. propose codec factory w batch_config_updated (batch_config config earliest))
    pure proposed
    call
    append_event codec factory batch_config_updated (batch_config config earliest)
    call
    call
    write_manifest
    call)

  -- `update_config` of one job
  unfoldable pub update_job_config : C → StageName → String → Act C (Unit {0})
  update_job_config config earliest id = method (do
    append_event codec factory job_config_updated
        (field "job_id" (str id) (field "config" (to_dict config) end))
    job ← job_of id
    current ← pure (stage_in job earliest)
    if is_committed current.state
        then append_event codec factory stage_invalidated
            (stage_payload id earliest current.attempt end)
        else returns tt
    write_manifest)

  -- the methods of the service, as its callers choose them
  pub data Request : Type 0 where
    runs resumes shows_status : Request
    retries : String → StageName → Request
    acknowledges : Option String → Request
    updates_batch : C → StageName → Request
    updates_job : C → StageName → String → Request

  unfoldable pub serve : Request → Act C (Unit {0})
  serve runs = run codec factory runners
  serve resumes = resume
  serve shows_status = status
  serve (retries id n) = retry id n
  serve (acknowledges active) = acknowledge_cancel_requests codec factory active
  serve (updates_batch config earliest) = update_batch config earliest
  serve (updates_job config earliest id) = update_job_config config earliest id
