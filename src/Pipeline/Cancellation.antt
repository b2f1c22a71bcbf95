-- ===== src/Pipeline/Cancellation.antt =====
-- core/application/durable_pipeline.py: the acknowledgement of cancel requests. A test for a marker
-- file is a question to the world outside; removing one is a call.
use video_captioner_z.Base.{
  String, Bool, true, false, not, ◌&&◌, ◌||◌, Option, none, some, List, [], ◌∷◌, contains, any,
  str_eq, if◌then◌else◌,
}
use video_captioner_z.Json.{Value, str, field, end, get}
use video_captioner_z.Stage.{StageProjection, is_running}
use video_captioner_z.Job.{ConfigCodec, JobProjection, JobState}
use video_captioner_z.Event.{EventType, JournalEvent, stage_cancelled, job_cancelled}
use video_captioner_z.Service.{
  Act, returns, reads, ◌>>=◌, ◌>>◌, call, ask, job_of, method, read_snapshot, write_manifest,
  job_payload, stage_payload, EventFactory, append_event,
}

is_text : String → Value → Bool
is_text id (str s) = str_eq s id
is_text id _ = false

is_job_cancelled : EventType → Bool
is_job_cancelled job_cancelled = true
is_job_cancelled _ = false

-- `_has_job_cancel_event`
unfoldable pub has_job_cancel_event : List JournalEvent → String → Bool
unfolding is_text is_job_cancelled get
has_job_cancel_event events id =
    any (λ (e : JournalEvent). is_job_cancelled e.type && is_text id (get e.payload "job_id"))
      events

is_id : Option String → String → Bool
is_id none id = false
is_id (some active) id = str_eq id active

-- the states of a job that a cancellation ends
unfoldable pub is_open : JobState → Bool
is_open JobState.pending = true
is_open JobState.running = true
is_open JobState.interrupted = true
is_open _ = false

unfoldable pub is_cancelled : JobState → Bool
is_cancelled JobState.cancelled = true
is_cancelled _ = false

unfoldable pub is_finished : JobState → Bool
is_finished JobState.succeeded = true
is_finished JobState.failed = true
is_finished JobState.cancelled = true
is_finished _ = false

module _ {C : Type 0} where
  -- the set `targeted`, in the order of the jobs
  unfoldable pub targets : Bool → Option String → List (JobProjection C) → Act C (List String)
  unfolding is_id
  targets batch active [] = returns []
  targets batch active (j ∷ jobs) = do
    marked ← (if batch || is_id active j.job_id then returns true else ask)
    rest ← targets batch active jobs
    returns (if marked then j.job_id ∷ rest else rest)

  -- the markers of the targeted jobs that are finished
  unfoldable pub clear_markers : List String → Act C (Unit {0})
  unfolding is_finished
  clear_markers [] = returns tt
  clear_markers (id ∷ ids) = do
    job ← job_of id
    if is_finished job.state then call else returns tt
    clear_markers ids

  unfoldable pub clear_batch_markers : Bool → Act C (Unit {0})
  clear_batch_markers true = do call; call
  clear_batch_markers false = returns tt

module _ {C : Type 0} (codec : ConfigCodec C) (factory : EventFactory) where
  -- the running stages of a job
  unfoldable pub cancel_running : String → List StageProjection → Act C (Unit {0})
  cancel_running id [] = returns tt
  cancel_running id (s ∷ stages) = do
    if is_running s.state
        then append_event codec factory stage_cancelled
            (stage_payload id s.name s.attempt (field "error_code" (str "operation.cancelled") end))
        else returns tt
    cancel_running id stages

  -- one round of the loop over the jobs, for a job that is targeted
  unfoldable pub cancel_job : List JournalEvent → String → Act C (Unit {0})
  unfolding cancel_running is_open is_cancelled has_job_cancel_event
  cancel_job events id = do
    before ← job_of id
    cancel_running id before.stages
    job ← job_of id
    if is_open job.state || (is_cancelled job.state && not (has_job_cancel_event events id))
        then append_event codec factory job_cancelled (job_payload id)
        else returns tt

  -- the loop, with the events that the journal had before the round
  unfoldable pub cancel_jobs :
      List JournalEvent → List String → List (JobProjection C) → Act C (Unit {0})
  unfolding cancel_job
  cancel_jobs events targeted [] = returns tt
  cancel_jobs events targeted (j ∷ jobs) = do
    again ←
        (if contains targeted j.job_id
          then (do cancel_job events j.job_id; read_snapshot; reads (λ w. w.log))
          else returns events)
    cancel_jobs again targeted jobs

  unfoldable pub finish_cancellation :
      Bool → List String → List (JobProjection C) → Act C (Unit {0})
  unfolding cancel_jobs clear_batch_markers clear_markers
  finish_cancellation batch [] jobs = returns tt
  finish_cancellation batch (id ∷ targeted) jobs = do
    read_snapshot
    events ← reads (λ w. w.log)
    cancel_jobs events (id ∷ targeted) jobs
    write_manifest
    clear_batch_markers batch
    clear_markers (id ∷ targeted)

  -- `acknowledge_cancel_requests`
  unfoldable pub acknowledge_cancel_requests : Option String → Act C (Unit {0})
  unfolding targets finish_cancellation
  acknowledge_cancel_requests active = method (do
    batch ← ask
    p ← reads (λ w. w.held)
    targeted ← targets batch active p.jobs
    finish_cancellation batch targeted p.jobs)
