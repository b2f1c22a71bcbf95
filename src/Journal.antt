-- ===== src/Journal.antt =====
-- core/domain/journal.py: the pure replay of the journal's events into a batch projection.
pub mod Chain
pub mod Steps
pub mod Updates
pub mod WellFormed
pub mod Completion
use video_captioner_z.Base.{
  suc, String, Bool, true, false, not, ◌||◌, Option, none, some, List, [], ◌∷◌, any, all, ◌++◌,
  contains, same_set, str_eq, ◌==◌, if◌then◌else◌, Result, ok, err, ◌>>=◌, ◌>>◌, raise_if,
  app_error,
}
use video_captioner_z.Json.{Fields, get, keys}
use video_captioner_z.Stage.{StageName, stage_plan_for, in_plan}
use video_captioner_z.Job.{JobState, ConfigCodec, JobProjection, job_projection, replace_job}
use video_captioner_z.Batch.{BatchProjection, batch_projection}
use video_captioner_z.Event.{
  EventType, batch_config_updated, job_created, job_config_updated, JournalEvent, is_batch_created,
  transition_invalid, required_str,
}
use video_captioner_z.StageEvents.{reconfigure_stages}
use video_captioner_z.JobEvents.{required_stage, is_failed_or_cancelled, apply_to_job}

-- the events after which the signatures are compared
abbrev pub checks_signatures : EventType → Bool
checks_signatures job_created = true
checks_signatures job_config_updated = true
checks_signatures batch_config_updated = true
checks_signatures _ = false

module _ {C : Type 0} where
  -- `_find_job` and the write `jobs[job_index] = job`: the first job with the id is replaced by
  -- the result of `f`.
  unfoldable pub update_job :
      String
      → (JobProjection C → Result (JobProjection C))
      → List (JobProjection C)
      → Result (List (JobProjection C))
  update_job id f [] = transition_invalid "job_missing"
  update_job id f (j ∷ js) =
      if str_eq j.job_id id
      then (do j' ← f j; ok (j' ∷ js))
      else (do rest ← update_job id f js; ok (j ∷ rest))

  -- `replace(projection, jobs=tuple(jobs))`
  unfoldable pub replace_jobs :
      BatchProjection C → List (JobProjection C) → Result (BatchProjection C)
  replace_jobs p jobs = batch_projection p.batch_id jobs p.last_event_seq p.event_ids

  -- `_validate_envelope`
  unfoldable pub validate_envelope : BatchProjection C → JournalEvent → Result (Unit {0})
  validate_envelope p e = do
    raise_if (not (str_eq e.batch_id p.batch_id))
        (app_error "journal.transition_invalid" "batch_mismatch")
    raise_if (not (e.seq == suc p.last_event_seq))
        (app_error "journal.transition_invalid" "sequence_gap")
    raise_if (contains p.event_ids e.event_id)
        (app_error "journal.transition_invalid" "duplicate_event_id")

  unfoldable pub non_empty : Option (BatchProjection C) → Result (BatchProjection C)
  non_empty none = err (app_error "journal.empty" "")
  non_empty (some p) = ok p

module _ {C : Type 0} (codec : ConfigCodec C) where
  -- the loop of `_update_batch_config`
  unfoldable pub reconfigure_jobs :
      C → StageName → List (JobProjection C) → Result (List (JobProjection C))
  reconfigure_jobs config earliest [] = ok []
  reconfigure_jobs config earliest (j ∷ js) = do
    let plan = stage_plan_for (codec.profile config)
    j' ←
        replace_job codec j config
          (if is_failed_or_cancelled j.state then j.state else JobState.pending)
          (reconfigure_stages plan (some earliest) j.stages)
    rest ← reconfigure_jobs config earliest js
    ok (j' ∷ rest)

  -- `_update_batch_config`
  unfoldable pub update_batch_config : BatchProjection C → Fields → Result (BatchProjection C)
  unfolding reconfigure_jobs replace_jobs
  update_batch_config p payload = do
    raise_if (not (same_set (keys payload) ("config" ∷ "earliest_stage" ∷ [])))
        (app_error "journal.transition_invalid" "batch_config_fields")
    config ← codec.decode (get payload "config")
    earliest ← required_stage payload "earliest_stage"
    raise_if (not (in_plan earliest (stage_plan_for (codec.profile config))))
        (app_error "journal.transition_invalid" "stage_name")
    jobs ← reconfigure_jobs config earliest p.jobs
    replace_jobs p jobs

  -- `_create_job`
  unfoldable pub create_job : BatchProjection C → Fields → Result (BatchProjection C)
  unfolding replace_jobs
  create_job p payload = do
    id ← required_str payload "job_id"
    raise_if (any (λ j. str_eq j.job_id id) p.jobs)
        (app_error "journal.transition_invalid" "duplicate_job")
    path ← required_str payload "input_path"
    config ← codec.decode (get payload "config")
    job ← job_projection codec id path config JobState.pending []
    replace_jobs p (p.jobs ++ job ∷ [])

  pub update_one : BatchProjection C → EventType → Fields → Result (BatchProjection C)
  unfolding update_job replace_jobs
  update_one p type payload = do
    id ← required_str payload "job_id"
    jobs ← update_job id (λ j. apply_to_job codec j type payload) p.jobs
    replace_jobs p jobs

  -- `_apply_payload`
  unfoldable pub apply_payload : BatchProjection C → EventType → Fields → Result (BatchProjection C)
  unfolding update_batch_config create_job update_one
  apply_payload p batch_config_updated payload = update_batch_config p payload
  apply_payload p job_created payload = create_job p payload
  apply_payload p type payload = update_one p type payload

  -- at most one signature among the jobs
  unfoldable pub one_signature : List (JobProjection C) → Bool
  one_signature [] = true
  one_signature (j ∷ js) = all (λ k. codec.same_signature j.config k.config) js

  -- `_validate_common_runtime`, for the events that call for it
  unfoldable pub validate_common_runtime : EventType → BatchProjection C → Result (Unit {0})
  unfolding one_signature
  validate_common_runtime type p =
      raise_if (if checks_signatures type then not (one_signature p.jobs) else false)
        (app_error "journal.transition_invalid" "config_inconsistent")

  -- `apply_event`; `none` is the batch that is not yet created
  unfoldable pub apply_event :
      Option (BatchProjection C) → JournalEvent → Result (BatchProjection C)
  unfolding validate_envelope apply_payload validate_common_runtime
  apply_event none e = do
    raise_if (not (is_batch_created e.type) || not (e.seq == 1))
        (app_error "journal.transition_invalid" "batch_not_created")
    batch_projection e.batch_id [] 1 (e.event_id ∷ [])
  apply_event (some p) e = do
    validate_envelope p e
    raise_if (is_batch_created e.type) (app_error "journal.transition_invalid" "duplicate_batch")
    updated ← apply_payload p e.type e.payload
    validate_common_runtime e.type updated
    batch_projection updated.batch_id updated.jobs e.seq (e.event_id ∷ updated.event_ids)

  -- the loop of `replay`
  unfoldable pub apply_events :
      Option (BatchProjection C) → List JournalEvent → Result (Option (BatchProjection C))
  apply_events p [] = ok p
  apply_events p (e ∷ es) = do q ← apply_event p e; apply_events (some q) es

  unfoldable pub replay : List JournalEvent → Result (BatchProjection C)
  unfolding apply_events non_empty
  replay events = do p ← apply_events none events; non_empty p
