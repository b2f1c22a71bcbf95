-- ===== src/Tests/Pipeline.antt =====
-- Runs of the durable batch service.
use video_captioner_z.Base.{
  ℕ, zero, suc, String, Bool, true, false, Option, none, some, ◌≡◌, refl, List, [], ◌∷◌, ◌++◌,
  length, Result, ok, err, app_error,
}
use video_captioner_z.Json.{Value, str, end}
use video_captioner_z.Artifact.{ArtifactRef}
use video_captioner_z.Stage.{PipelineProfile, StageName, normalize, transcribe, inspect}
use video_captioner_z.Event.{JournalEvent}
use video_captioner_z.Batch.{BatchProjection}
use video_captioner_z.Journal.{replay}
use video_captioner_z.Journal.WellFormed.{IsWellFormed}
use video_captioner_z.Service.{
  World, Answer, done, fails, tears, says, gives, whole, torn, corrupt, EventFactory,
}
use video_captioner_z.Pipeline.Run.{StageRunners}
use video_captioner_z.Pipeline.{Request, resumes, runs, serve}
use video_captioner_z.Pipeline.Recoverable.{ReadsAsHeld, IsHeld, serve-Recovers, serve-StaysWhole}
use video_captioner_z.Tests.Sample.{sample_codec, short_log}
use video_captioner_z.Tests.Journal.{run, replay-short_log}

abbrev nth_id : ℕ → String
nth_id zero = "n0"
nth_id (suc zero) = "n1"
nth_id (suc (suc zero)) = "n2"
nth_id (suc (suc (suc n))) = "n3"

abbrev sample_factory : EventFactory
sample_factory = record {
  next_id = nth_id;
  now_utc = λ n. "2026-01-02T00:00:00Z";
  is_timestamp = λ s. true;
}

abbrev sample_runners : StageRunners PipelineProfile
sample_runners = record {
  version = λ n. some "1";
  cache_config = λ c n s. ok end;
  digest = λ v. "sha256:00000000000000000000000000000000000000000000000000000000000000ff";
}

abbrev to_value : PipelineProfile → Value
to_value p = str "deterministic"

-- A world with one committed stage, where the calls answer as given.
abbrev world : List Answer → World PipelineProfile
world answers = record {
  log = short_log;
  tail = whole;
  held = run short_log;
  manifest = none;
  answers = answers;
  next_event = 0;
  committed = false;
  cancelled = false;
  reason = "";
}

abbrev request : Request sample_codec sample_factory sample_runners to_value
request = resumes

abbrev outcome : List Answer → World PipelineProfile
outcome answers =
    (serve sample_codec sample_factory sample_runners to_value request (world answers)).1

-- The job is offered, its next stage is started, and its runner gives no artifact: the stage and
-- the job fail, which makes three more events.
resume_log : length (outcome []).log ≡ 7
unfolding video_captioner_z.Service.returns video_captioner_z.Service.raises
    video_captioner_z.Service.pure video_captioner_z.Service.reads video_captioner_z.Service.writes
    video_captioner_z.Service.◌>>=◌ video_captioner_z.Service.catches
    video_captioner_z.Service.next_answer video_captioner_z.Service.call
    video_captioner_z.Service.ask video_captioner_z.Service.produce
    video_captioner_z.Service.raises_if video_captioner_z.Service.job_of
    video_captioner_z.Service.write_manifest video_captioner_z.Service.stage_in
    video_captioner_z.Service.check_append video_captioner_z.Service.prepare
    video_captioner_z.Service.append_event video_captioner_z.Service.reload
    video_captioner_z.Service.save_manifest video_captioner_z.Service.written
    video_captioner_z.Service.method video_captioner_z.Service.is_corrupt
    video_captioner_z.Service.write_line video_captioner_z.Service.repair_tail
    video_captioner_z.Service.check_lines video_captioner_z.Service.read_snapshot
    video_captioner_z.Service.repair_and_read video_captioner_z.Service.refresh
    video_captioner_z.Service.always_after video_captioner_z.StageExecutor.begin
    video_captioner_z.StageExecutor.set_committed video_captioner_z.StageExecutor.set_cancelled
    video_captioner_z.StageExecutor.set_reason video_captioner_z.StageExecutor.raise_if_cancelled
    video_captioner_z.StageExecutor.verify_all video_captioner_z.StageExecutor.verify_committed
    video_captioner_z.StageExecutor.require_outputs video_captioner_z.StageExecutor.make_artifacts
    video_captioner_z.StageExecutor.after_commit video_captioner_z.StageExecutor.attempt_stage
    video_captioner_z.StageExecutor.handle_cancellation
    video_captioner_z.StageExecutor.handle_failure video_captioner_z.StageExecutor.handle_error
    video_captioner_z.StageExecutor.cleanup_failed video_captioner_z.StageExecutor.clean_up
    video_captioner_z.StageExecutor.run_attempt video_captioner_z.StageExecutor.start_attempt
    video_captioner_z.StageExecutor.execute video_captioner_z.Pipeline.finds_code
    video_captioner_z.Pipeline.blob_issues video_captioner_z.Pipeline.check_publication
    video_captioner_z.Pipeline.publication_issues video_captioner_z.Pipeline.stage_issues
    video_captioner_z.Pipeline.job_issues video_captioner_z.Pipeline.raise_first
    video_captioner_z.Pipeline.read_status video_captioner_z.Pipeline.status
    video_captioner_z.Pipeline.resume video_captioner_z.Pipeline.retry
    video_captioner_z.Pipeline.update_batch video_captioner_z.Pipeline.update_job_config
    video_captioner_z.Pipeline.serve video_captioner_z.Pipeline.Run.cache_key_payload
    video_captioner_z.Pipeline.Run.committed_artifacts video_captioner_z.Pipeline.Run.pauses_before
    video_captioner_z.Pipeline.Run.any_marked video_captioner_z.Pipeline.Run.run_stage
    video_captioner_z.Pipeline.Run.run_stages video_captioner_z.Pipeline.Run.record_error
    video_captioner_z.Pipeline.Run.job_failed_with video_captioner_z.Pipeline.Run.late_cancellation
    video_captioner_z.Pipeline.Run.finish_job video_captioner_z.Pipeline.Run.run_job
    video_captioner_z.Pipeline.Run.next_job_after video_captioner_z.Pipeline.Run.after_job
    video_captioner_z.Pipeline.Run.run_jobs video_captioner_z.Pipeline.Run.answer_requests
    video_captioner_z.Pipeline.Run.run video_captioner_z.Pipeline.Cancellation.has_job_cancel_event
    video_captioner_z.Pipeline.Cancellation.is_open
    video_captioner_z.Pipeline.Cancellation.is_cancelled
    video_captioner_z.Pipeline.Cancellation.is_finished
    video_captioner_z.Pipeline.Cancellation.targets
    video_captioner_z.Pipeline.Cancellation.clear_markers
    video_captioner_z.Pipeline.Cancellation.clear_batch_markers
    video_captioner_z.Pipeline.Cancellation.cancel_running
    video_captioner_z.Pipeline.Cancellation.cancel_job
    video_captioner_z.Pipeline.Cancellation.cancel_jobs
    video_captioner_z.Pipeline.Cancellation.finish_cancellation
    video_captioner_z.Pipeline.Cancellation.acknowledge_cancel_requests
    video_captioner_z.Pipeline.Repair.shows_bad video_captioner_z.Pipeline.Repair.check_artifacts
    video_captioner_z.Pipeline.Repair.check_stages video_captioner_z.Pipeline.Repair.check_jobs
    video_captioner_z.Pipeline.Repair.remove_corrupt video_captioner_z.Pipeline.Repair.earliest_bad
    video_captioner_z.Pipeline.Repair.check_publications
    video_captioner_z.Pipeline.Repair.invalidate_stage
    video_captioner_z.Pipeline.Repair.invalidate_jobs
    video_captioner_z.Pipeline.Repair.invalidate_corrupt_artifacts
    video_captioner_z.Pipeline.Repair.interrupt_stages
    video_captioner_z.Pipeline.Repair.interrupt_jobs
    video_captioner_z.Pipeline.Repair.interrupt_open_attempts video_captioner_z.Journal.replay
    video_captioner_z.Journal.apply_event video_captioner_z.Base.◌>>=◌
    video_captioner_z.Base.raise_if video_captioner_z.Batch.batch_projection
    video_captioner_z.Job.validate_identifier video_captioner_z.Event.required_str
    video_captioner_z.Job.job_projection video_captioner_z.Stage.stage_plan_for
    video_captioner_z.JobEvents.apply_to_job video_captioner_z.JobEvents.apply_stage_event
    video_captioner_z.JobEvents.retry_job video_captioner_z.JobEvents.apply_job_terminal
    video_captioner_z.JobEvents.required_stage video_captioner_z.JobEvents.stage_of
    video_captioner_z.Event.required_int video_captioner_z.Job.replace_job
    video_captioner_z.Stage.StageName-discrete video_captioner_z.Batch.JobState-discrete
    video_captioner_z.StageEvents.is_blocked video_captioner_z.StageEvents.terminal_stage
    video_captioner_z.StageEvents.modify_stage video_captioner_z.StageEvents.reset_suffix
    video_captioner_z.Job.find_stage video_captioner_z.Event.journal_event
    video_captioner_z.Tests.Journal.run video_captioner_z.Batch.find_batch_job
resume_log = refl

-- the request's result and the world after it
abbrev served : List Answer → Result (Unit {0}) × World PipelineProfile
served answers = serve sample_codec sample_factory sample_runners to_value request (world answers)

-- an artifact that a runner makes
abbrev sample_ref : ArtifactRef
sample_ref = record {
  sha256 = "00000000000000000000000000000000000000000000000000000000000000ff";
  size_bytes = 3;
  kind = "media";
  media_type = "text/plain";
  logical_name = "a.txt";
}

-- The runner makes an artifact, and the commit of the stage is written in part.
abbrev torn_commit : List Answer
torn_commit =
    done
    ∷ done
    ∷ done
    ∷ done
    ∷ done
    ∷ done
    ∷ done
    ∷ done
    ∷ done
    ∷ done
    ∷ done
    ∷ done
    ∷ done
    ∷ done
    ∷ done
    ∷ done
    ∷ done
    ∷ done
    ∷ done
    ∷ done
    ∷ done
    ∷ done
    ∷ done
    ∷ done
    ∷ done
    ∷ done
    ∷ done
    ∷ done
    ∷ gives (sample_ref ∷ [])
    ∷ done
    ∷ done
    ∷ done
    ∷ tears (app_error "journal.append_failed" "5")
    ∷ []

-- The failure of the stage is then written after the part, which makes a line that cannot be read.
torn_tail : (outcome torn_commit).tail ≡ corrupt
unfolding video_captioner_z.Service.returns video_captioner_z.Service.raises
    video_captioner_z.Service.pure video_captioner_z.Service.reads video_captioner_z.Service.writes
    video_captioner_z.Service.◌>>=◌ video_captioner_z.Service.catches
    video_captioner_z.Service.next_answer video_captioner_z.Service.call
    video_captioner_z.Service.ask video_captioner_z.Service.produce
    video_captioner_z.Service.raises_if video_captioner_z.Service.job_of
    video_captioner_z.Service.write_manifest video_captioner_z.Service.stage_in
    video_captioner_z.Service.check_append video_captioner_z.Service.prepare
    video_captioner_z.Service.append_event video_captioner_z.Service.reload
    video_captioner_z.Artifact.artifact_items video_captioner_z.StageEvents.commit_stage
    video_captioner_z.Service.save_manifest video_captioner_z.Service.written
    video_captioner_z.Service.method video_captioner_z.Service.is_corrupt
    video_captioner_z.Service.write_line video_captioner_z.Service.repair_tail
    video_captioner_z.Service.check_lines video_captioner_z.Service.read_snapshot
    video_captioner_z.Service.repair_and_read video_captioner_z.Service.refresh
    video_captioner_z.Service.always_after video_captioner_z.StageExecutor.begin
    video_captioner_z.StageExecutor.set_committed video_captioner_z.StageExecutor.set_cancelled
    video_captioner_z.StageExecutor.set_reason video_captioner_z.StageExecutor.raise_if_cancelled
    video_captioner_z.StageExecutor.verify_all video_captioner_z.StageExecutor.verify_committed
    video_captioner_z.StageExecutor.require_outputs video_captioner_z.StageExecutor.make_artifacts
    video_captioner_z.StageExecutor.after_commit video_captioner_z.StageExecutor.attempt_stage
    video_captioner_z.StageExecutor.handle_cancellation
    video_captioner_z.StageExecutor.handle_failure video_captioner_z.StageExecutor.handle_error
    video_captioner_z.StageExecutor.cleanup_failed video_captioner_z.StageExecutor.clean_up
    video_captioner_z.StageExecutor.run_attempt video_captioner_z.StageExecutor.start_attempt
    video_captioner_z.StageExecutor.execute video_captioner_z.Pipeline.finds_code
    video_captioner_z.Pipeline.blob_issues video_captioner_z.Pipeline.check_publication
    video_captioner_z.Pipeline.publication_issues video_captioner_z.Pipeline.stage_issues
    video_captioner_z.Pipeline.job_issues video_captioner_z.Pipeline.raise_first
    video_captioner_z.Pipeline.read_status video_captioner_z.Pipeline.status
    video_captioner_z.Pipeline.resume video_captioner_z.Pipeline.retry
    video_captioner_z.Pipeline.update_batch video_captioner_z.Pipeline.update_job_config
    video_captioner_z.Pipeline.serve video_captioner_z.Pipeline.Run.cache_key_payload
    video_captioner_z.Pipeline.Run.committed_artifacts video_captioner_z.Pipeline.Run.pauses_before
    video_captioner_z.Pipeline.Run.any_marked video_captioner_z.Pipeline.Run.run_stage
    video_captioner_z.Pipeline.Run.run_stages video_captioner_z.Pipeline.Run.record_error
    video_captioner_z.Pipeline.Run.job_failed_with video_captioner_z.Pipeline.Run.late_cancellation
    video_captioner_z.Pipeline.Run.finish_job video_captioner_z.Pipeline.Run.run_job
    video_captioner_z.Pipeline.Run.next_job_after video_captioner_z.Pipeline.Run.after_job
    video_captioner_z.Pipeline.Run.run_jobs video_captioner_z.Pipeline.Run.answer_requests
    video_captioner_z.Pipeline.Run.run video_captioner_z.Pipeline.Cancellation.has_job_cancel_event
    video_captioner_z.Pipeline.Cancellation.is_open
    video_captioner_z.Pipeline.Cancellation.is_cancelled
    video_captioner_z.Pipeline.Cancellation.is_finished
    video_captioner_z.Pipeline.Cancellation.targets
    video_captioner_z.Pipeline.Cancellation.clear_markers
    video_captioner_z.Pipeline.Cancellation.clear_batch_markers
    video_captioner_z.Pipeline.Cancellation.cancel_running
    video_captioner_z.Pipeline.Cancellation.cancel_job
    video_captioner_z.Pipeline.Cancellation.cancel_jobs
    video_captioner_z.Pipeline.Cancellation.finish_cancellation
    video_captioner_z.Pipeline.Cancellation.acknowledge_cancel_requests
    video_captioner_z.Pipeline.Repair.shows_bad video_captioner_z.Pipeline.Repair.check_artifacts
    video_captioner_z.Pipeline.Repair.check_stages video_captioner_z.Pipeline.Repair.check_jobs
    video_captioner_z.Pipeline.Repair.remove_corrupt video_captioner_z.Pipeline.Repair.earliest_bad
    video_captioner_z.Pipeline.Repair.check_publications
    video_captioner_z.Pipeline.Repair.invalidate_stage
    video_captioner_z.Pipeline.Repair.invalidate_jobs
    video_captioner_z.Pipeline.Repair.invalidate_corrupt_artifacts
    video_captioner_z.Pipeline.Repair.interrupt_stages
    video_captioner_z.Pipeline.Repair.interrupt_jobs
    video_captioner_z.Pipeline.Repair.interrupt_open_attempts video_captioner_z.Journal.replay
    video_captioner_z.Journal.apply_event video_captioner_z.Base.◌>>=◌
    video_captioner_z.Base.raise_if video_captioner_z.Batch.batch_projection
    video_captioner_z.Job.validate_identifier video_captioner_z.Event.required_str
    video_captioner_z.Job.job_projection video_captioner_z.Stage.stage_plan_for
    video_captioner_z.JobEvents.apply_to_job video_captioner_z.JobEvents.apply_stage_event
    video_captioner_z.JobEvents.retry_job video_captioner_z.JobEvents.apply_job_terminal
    video_captioner_z.JobEvents.required_stage video_captioner_z.JobEvents.stage_of
    video_captioner_z.Event.required_int video_captioner_z.Job.replace_job
    video_captioner_z.Stage.StageName-discrete video_captioner_z.Batch.JobState-discrete
    video_captioner_z.StageEvents.is_blocked video_captioner_z.StageEvents.terminal_stage
    video_captioner_z.StageEvents.modify_stage video_captioner_z.StageEvents.reset_suffix
    video_captioner_z.Job.find_stage video_captioner_z.Event.journal_event
    video_captioner_z.Tests.Journal.run video_captioner_z.Batch.find_batch_job
torn_tail = refl

serve-Recovers_example :
    (more : List JournalEvent) × ((outcome torn_commit).log ≡ short_log ++ more)
    × ((p : BatchProjection PipelineProfile) × (replay sample_codec (outcome torn_commit).log
          ≡ ok p)
        × IsWellFormed sample_codec p)
    × ReadsAsHeld sample_codec (served torn_commit)
    × ((cut rest : List JournalEvent)
        → more ≡ cut ++ rest
        → (p : BatchProjection PipelineProfile) × (replay sample_codec (short_log ++ cut) ≡ ok p))
serve-Recovers_example =
    serve-Recovers sample_codec sample_factory sample_runners to_value request (world torn_commit)
      replay-short_log

serve-StaysWhole_example : ((outcome []).tail ≡ whole) × IsHeld sample_codec (served [])
serve-StaysWhole_example =
    serve-StaysWhole sample_codec sample_factory sample_runners to_value request (world [])
      replay-short_log refl tt
