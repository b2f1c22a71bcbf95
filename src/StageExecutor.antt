-- ===== src/StageExecutor.antt =====
-- core/application/stage_executor.py: one attempt of a stage, from its start to its commit or to
-- the events that record its failure. A stage runner, the artifact store, the fault injector and
-- the workspace are calls; an `OSError` of the workspace's removal is an error of its call, with
-- the name of its class for a code.
pub mod Coherence
use video_captioner_z.Base.{
  ℕ, suc, String, Bool, true, false, not, ◌&&◌, Option, none, some, List, [], ◌∷◌, map, distinct,
  str_eq, if◌then◌else◌, AppError, app_error,
}
use video_captioner_z.Json.{str, array, Fields, field, end}
use video_captioner_z.Artifact.{ArtifactRef, artifact_items}
use video_captioner_z.Stage.{StageName, StageProjection, stage_value, is_committed}
use video_captioner_z.Job.{ConfigCodec, JobProjection}
use video_captioner_z.Event.{
  EventType, stage_started, stage_committed, stage_failed, stage_cancelled, stage_invalidated,
  job_failed, job_cancelled,
}
use video_captioner_z.StageEvents.{is_nil}
use video_captioner_z.Service.{
  World, Act, returns, raises, pure, reads, writes, ◌>>=◌, ◌>>◌, catches, always_after, call, ask,
  produce, raises_if, job_of, stage_in, write_manifest, job_payload, stage_payload, EventFactory,
  append_event, method,
}

abbrev pub cancelled_error : AppError
cancelled_error = app_error "operation.cancelled" ""

module _ {C : Type 0} where
  -- the local variables of `execute`
  unfoldable pub begin : Act C (Unit {0})
  begin = writes (λ w. record w { committed = false; cancelled = false; reason = "recovery" })

  unfoldable pub set_committed : Act C (Unit {0})
  set_committed = writes (λ w. record w { committed = true })

  unfoldable pub set_cancelled : Act C (Unit {0})
  set_cancelled = writes (λ w. record w { cancelled = true })

  unfoldable pub set_reason : String → Act C (Unit {0})
  set_reason reason = writes (λ w. record w { reason = reason })

  -- `context.raise_if_cancelled()`
  unfoldable pub raise_if_cancelled : Act C (Unit {0})
  raise_if_cancelled = do cancelled ← ask; raises_if cancelled cancelled_error

  -- `for ref in refs: self.artifact_store.verify(ref)`
  unfoldable pub verify_all : List ArtifactRef → Act C (Unit {0})
  verify_all [] = returns tt
  verify_all (ref ∷ refs) = do call; verify_all refs

  -- `verify_committed`: the artifacts, then the external state of the stage
  unfoldable pub verify_committed : StageProjection → Act C (Unit {0})
  unfolding verify_all
  verify_committed stage = do verify_all stage.artifacts; call

  -- `_require_outputs`
  unfoldable pub require_outputs : StageName → List ArtifactRef → Act C (Unit {0})
  require_outputs n refs = do
    raises_if (is_nil refs) (app_error "stage.output_invalid" (stage_value n))
    raises_if (not (distinct (map (λ (r : ArtifactRef). r.logical_name) refs)))
        (app_error "stage.output_invalid" (stage_value n))

abbrev same_key : Option String → String → Bool
same_key none key = false
same_key (some k) key = str_eq k key

abbrev pub commit_fields : String → List ArtifactRef → Fields
commit_fields key refs =
    field "cache_key" (str key) (field "artifacts" (array (artifact_items refs)) end)

module _ {C : Type 0} (codec : ConfigCodec C) (factory : EventFactory) where
  append : EventType → Fields → Act C (Unit {0})
  append = append_event codec factory

  -- the first half of the `try` block, up to what the runner made
  unfoldable pub make_artifacts : String → StageName → ℕ → Act C (List ArtifactRef)
  unfolding append
  make_artifacts id n attempt = do
    append stage_started (stage_payload id n attempt end)
    write_manifest
    call
    raise_if_cancelled
    call
    raise_if_cancelled
    refs ← produce
    require_outputs n refs
    verify_all refs
    call
    call
    returns refs

  -- the rest of the block after the commit's event
  unfoldable pub after_commit : List ArtifactRef → Act C (Unit {0})
  after_commit refs = do
    set_committed
    set_reason "after_commit_hook"
    call
    set_reason "artifact_verification"
    verify_all refs
    call
    set_reason "manifest_projection"
    write_manifest

  -- the `try` block
  unfoldable pub attempt_stage : String → StageName → String → ℕ → Act C (Unit {0})
  unfolding append make_artifacts after_commit
  attempt_stage id n key attempt = do
    refs ← make_artifacts id n attempt
    append stage_committed (stage_payload id n attempt (commit_fields key refs))
    after_commit refs

  -- `except AppError`, for a cancellation
  unfoldable pub handle_cancellation : String → StageName → ℕ → AppError → Act C (Unit {0})
  unfolding append
  handle_cancellation id n attempt e = do
    append stage_cancelled (stage_payload id n attempt (field "error_code" (str e.code) end))
    append job_cancelled (job_payload id)
    catches write_manifest
        (λ _. raises (app_error "stage.cancellation_projection_failed" (stage_value n)))
    set_cancelled
    raises e

  -- `except AppError`, for another error
  unfoldable pub handle_failure : String → StageName → ℕ → AppError → Act C (Unit {0})
  unfolding append
  handle_failure id n attempt e = do
    committed ← reads (λ w. w.committed)
    reason ← reads (λ w. w.reason)
    raises_if committed (app_error "stage.post_commit_failed" reason)
    append stage_failed (stage_payload id n attempt (field "error_code" (str e.code) end))
    append job_failed (job_payload id)
    write_manifest
    raises e

  unfoldable pub handle_error : String → StageName → ℕ → AppError → Act C (Unit {0})
  unfolding handle_cancellation handle_failure
  handle_error id n attempt e =
      if str_eq e.code "operation.cancelled"
      then handle_cancellation id n attempt e
      else handle_failure id n attempt e

  -- `except OSError` of the removal of the workspace
  unfoldable pub cleanup_failed : AppError → Act C (Unit {0})
  cleanup_failed e = if str_eq e.code "FileNotFoundError" then returns tt else (do
    committed ← reads (λ w. w.committed)
    raises_if committed (app_error "stage.post_commit_failed" "workspace_cleanup")
    cancelled ← reads (λ w. w.cancelled)
    raises_if cancelled cancelled_error
    raises (app_error "stage.workspace_cleanup_failed" ""))

  unfoldable pub clean_up : Act C (Unit {0})
  unfolding cleanup_failed
  clean_up = catches call cleanup_failed

  -- `execute` from the making of the workspace on
  unfoldable pub run_attempt : String → StageName → String → ℕ → Act C (Unit {0})
  unfolding attempt_stage handle_error clean_up
  run_attempt id n key attempt = do
    call
    begin
    always_after (catches (attempt_stage id n key attempt) (handle_error id n attempt)) clean_up

  -- `execute` for a stage that is not committed under the key
  unfoldable pub start_attempt : String → StageName → String → StageProjection → Act C (Unit {0})
  unfolding append run_attempt
  start_attempt id n key current = do
    if is_committed current.state
        then append stage_invalidated (stage_payload id n current.attempt end)
        else returns tt
    job ← job_of id
    again ← pure (stage_in job n)
    run_attempt id n key (suc again.attempt)

  -- `execute`, the cache key of the inputs given
  unfoldable pub execute : String → StageName → String → Act C (Unit {0})
  unfolding start_attempt
  execute id n key = method (do
    job ← job_of id
    current ← pure (stage_in job n)
    if is_committed current.state
          && same_key current.cache_key key
          && not (is_nil current.artifacts)
        then verify_committed current
        else start_attempt id n key current)
