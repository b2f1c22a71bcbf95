-- ===== src/Pipeline/Repair.antt =====
-- core/application/durable_pipeline.py: what a restart does to the attempts that were open and to
-- the artifacts that are missing or corrupt.
use video_captioner_z.Base.{
  String, Bool, true, false, not, ◌||◌, Option, none, some, List, [], ◌∷◌, ◌++◌, any, ◌==◌, str_eq,
  if◌then◌else◌, app_error,
}
use video_captioner_z.Json.{end}
use video_captioner_z.Artifact.{ArtifactRef}
use video_captioner_z.Stage.{
  StageName, StageProjection, is_stage, is_running, is_committed, stage_plan_for, publish,
}
use video_captioner_z.Job.{ConfigCodec, JobProjection}
use video_captioner_z.Event.{stage_interrupted, stage_invalidated}
use video_captioner_z.Journal.{replay}
use video_captioner_z.Service.{
  Act, returns, raises, pure, reads, ◌>>=◌, ◌>>◌, catches, call, raises_if, stage_in, method,
  repair_and_read, write_manifest, stage_payload, EventFactory, append_event,
}

-- an artifact that failed its verification, with the job and the stage that it is of
pub record BadArtifact : Type 0 where
  pub job_id : String
  pub stage : StageName
  pub artifact : ArtifactRef

abbrev is_bad_blob : String → Bool
is_bad_blob code = str_eq code "artifact.missing" || str_eq code "artifact.corrupt"

module _ {C : Type 0} where
  -- a call that may show its subject to be bad: by an error with such a code
  unfoldable pub shows_bad : (String → Bool) → Act C Bool
  shows_bad bad =
      catches (do call; returns false) (λ e. if bad e.code then returns true else raises e)

  unfoldable pub check_artifacts : String → StageName → List ArtifactRef → Act C (List BadArtifact)
  unfolding shows_bad
  check_artifacts id n [] = returns []
  check_artifacts id n (a ∷ refs) = do
    bad ← shows_bad is_bad_blob
    rest ← check_artifacts id n refs
    returns (if bad then record { job_id = id; stage = n; artifact = a } ∷ rest else rest)

  unfoldable pub check_stages : String → List StageProjection → Act C (List BadArtifact)
  unfolding check_artifacts
  check_stages id [] = returns []
  check_stages id (s ∷ stages) = do
    bad ← (if is_committed s.state then check_artifacts id s.name s.artifacts else returns [])
    rest ← check_stages id stages
    returns (bad ++ rest)

  unfoldable pub check_jobs : List (JobProjection C) → Act C (List BadArtifact)
  unfolding check_stages
  check_jobs [] = returns []
  check_jobs (j ∷ jobs) = do
    bad ← check_stages j.job_id j.stages
    rest ← check_jobs jobs
    returns (bad ++ rest)

  -- `remove_corrupt` for each
  unfoldable pub remove_corrupt : List BadArtifact → Act C (Unit {0})
  remove_corrupt [] = returns tt
  remove_corrupt (a ∷ bad) = do call; remove_corrupt bad

abbrev pub has_bad : List BadArtifact → String → Bool
has_bad bad id = any (λ (b : BadArtifact). str_eq b.job_id id) bad

abbrev pub has_bad_stage : List BadArtifact → String → StageName → Bool
has_bad_stage bad id n =
    any (λ (b : BadArtifact). if str_eq b.job_id id then is_stage b.stage n else false) bad

-- `min(invalidated, key=plan.index)`: the first stage of the plan among them
unfoldable pub earliest_bad : List BadArtifact → String → List StageName → Option StageName
earliest_bad bad id [] = none
earliest_bad bad id (n ∷ plan) = if has_bad_stage bad id n then some n else earliest_bad bad id plan

abbrev is_publication_error : String → Bool
is_publication_error code = str_eq code "output.publication_invalid"

module _ {C : Type 0} (codec : ConfigCodec C) (factory : EventFactory) where
  -- the jobs whose publication does not hold, of those without a bad artifact
  unfoldable pub check_publications :
      List BadArtifact → List (JobProjection C) → Act C (List String)
  unfolding shows_bad
  check_publications bad [] = returns []
  check_publications bad (j ∷ jobs) = do
    stage ← pure (stage_in j publish)
    invalid ←
        (if not (is_committed stage.state) || has_bad bad j.job_id
          then returns false
          else shows_bad is_publication_error)
    rest ← check_publications bad jobs
    returns (if invalid then j.job_id ∷ rest else rest)

  unfoldable pub invalidate_stage : JobProjection C → Option StageName → Act C (Unit {0})
  invalidate_stage j none = returns tt
  invalidate_stage j (some n) = do
    stage ← pure (stage_in j n)
    append_event codec factory stage_invalidated (stage_payload j.job_id n stage.attempt end)

  -- the stage of a job to invalidate: the earliest with a bad artifact, or its publication
  abbrev pub stage_to_invalidate :
      List BadArtifact → List String → JobProjection C → Option StageName
  stage_to_invalidate bad unpublished j =
      if has_bad bad j.job_id
      then earliest_bad bad j.job_id (stage_plan_for (codec.profile j.config))
      else if any (λ id. str_eq id j.job_id) unpublished
      then some publish
      else none

  unfoldable pub invalidate_jobs :
      List BadArtifact → List String → List (JobProjection C) → Act C (Unit {0})
  unfolding earliest_bad invalidate_stage
  invalidate_jobs bad unpublished [] = returns tt
  invalidate_jobs bad unpublished (j ∷ jobs) = do
    invalidate_stage j (stage_to_invalidate bad unpublished j)
    invalidate_jobs bad unpublished jobs

  -- `_invalidate_corrupt_artifacts`
  unfoldable pub invalidate_corrupt_artifacts : Act C (Unit {0})
  unfolding check_jobs remove_corrupt check_publications invalidate_jobs
  invalidate_corrupt_artifacts = method (do
    p ← reads (λ w. w.held)
    bad ← check_jobs p.jobs
    remove_corrupt bad
    unpublished ← check_publications bad p.jobs
    invalidate_jobs bad unpublished p.jobs
    write_manifest)

  unfoldable pub interrupt_stages : String → List StageProjection → Act C (Unit {0})
  interrupt_stages id [] = returns tt
  interrupt_stages id (s ∷ stages) = do
    if is_running s.state
        then append_event codec factory stage_interrupted (stage_payload id s.name s.attempt end)
        else returns tt
    interrupt_stages id stages

  unfoldable pub interrupt_jobs : List (JobProjection C) → Act C (Unit {0})
  unfolding interrupt_stages
  interrupt_jobs [] = returns tt
  interrupt_jobs (j ∷ jobs) = do interrupt_stages j.job_id j.stages; interrupt_jobs jobs

  -- `_interrupt_open_attempts`
  unfoldable pub interrupt_open_attempts : Act C (Unit {0})
  unfolding interrupt_jobs
  interrupt_open_attempts = method (do
    p ← reads (λ w. w.held)
    interrupt_jobs p.jobs
    repair_and_read
    log ← reads (λ w. w.log)
    again ← pure (replay codec log)
    now ← reads (λ w. w.held)
    raises_if (not (now.last_event_seq == again.last_event_seq)) (app_error "journal.corrupt" "")
    write_manifest)
