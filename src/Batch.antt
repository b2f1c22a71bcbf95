-- ===== src/Batch.antt =====
-- core/domain/batch.py: the batch projection and its aggregate state.
use video_captioner_z.Base.{
  ℕ, String, Bool, true, false, ◌||◌, List, [], ◌∷◌, any, all, str_eq, if◌then◌else◌, Result, ok,
  err, app_error, ◌>>◌,
}
use video_captioner_z.Job.{JobState, JobProjection, validate_identifier}

pub data BatchState : Type 0 where
  pending running interrupted failed cancelled succeeded partial : BatchState

-- `event_ids` is a set in the code: here the list of its members, the latest first.
pub record BatchProjection (C : Type 0) : Type 0 where
  pub batch_id : String
  pub jobs : List (JobProjection C)
  pub last_event_seq : ℕ
  pub event_ids : List String

unfoldable pub JobState-discrete : Discrete JobState
JobState-discrete = hlevel

abbrev pub is_state : JobState → JobState → Bool
is_state a b = elim (JobState-discrete a b) [ yes _ ↦ true | no _ ↦ false ]

module _ {C : Type 0} where
  -- The constructor with its check; `dataclasses.replace` calls it too.
  unfoldable pub batch_projection :
      String → List (JobProjection C) → ℕ → List String → Result (BatchProjection C)
  batch_projection id jobs seq ids = do
    validate_identifier id "batch_id"
    ok (record { batch_id = id; jobs = jobs; last_event_seq = seq; event_ids = ids })

  -- some job of the batch is in the state
  has_state : JobState → List (JobProjection C) → Bool
  has_state s jobs = any (λ j. is_state j.state s) jobs

  -- every job of the batch is in the state
  only_state : JobState → List (JobProjection C) → Bool
  only_state s jobs = all (λ j. is_state j.state s) jobs

  is_empty : List (JobProjection C) → Bool
  is_empty [] = true
  is_empty (j ∷ js) = false

  unfoldable pub batch_state : BatchProjection C → BatchState
  unfolding has_state only_state is_empty
  batch_state p =
      if is_empty p.jobs || only_state JobState.pending p.jobs
      then BatchState.pending
      else if has_state JobState.running p.jobs
      then BatchState.running
      else if has_state JobState.interrupted p.jobs
      then BatchState.interrupted
      else if has_state JobState.failed p.jobs
      then BatchState.failed
      else if only_state JobState.succeeded p.jobs
      then BatchState.succeeded
      else if only_state JobState.cancelled p.jobs
      then BatchState.cancelled
      else partial

  unfoldable pub find_batch_job : String → List (JobProjection C) → Result (JobProjection C)
  find_batch_job id [] = err (app_error "batch.job_not_found" id)
  find_batch_job id (j ∷ js) = if str_eq j.job_id id then ok j else find_batch_job id js
