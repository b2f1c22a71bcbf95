-- ===== src/Job.antt =====
-- core/domain/job.py: identifiers, job states and the job projection.
-- A job's configuration is reached through the interface `ConfigCodec`.
pub mod Plan
use video_captioner_z.Base.{
  String, Bool, true, false, not, ◌&&◌, ◌||◌, Option, none, some, List, [], ◌∷◌, ◌≡◌, map, ◌==◌,
  if◌then◌else◌, Result, ok, app_error, ◌>>◌, raise_if,
}
use video_captioner_z.Text.{
  codes, is_blank, is_trimmed, is_alnum, is_word, is_within, starts_with, is_absolute_path,
  has_windows_drive, has_control,
}
use video_captioner_z.Json.{Value}
use video_captioner_z.Stage.{
  StageName, PipelineProfile, StageProjection, StageState, stage_projection, is_stage,
  stage_plan_for,
}

unfoldable pub validate_identifier : String → String → Result (Unit {0})
unfolding is_blank is_trimmed is_alnum is_word is_within starts_with has_windows_drive has_control
validate_identifier value name =
    let cs = codes value in
    raise_if
      (is_blank value
        || not (is_trimmed value)
        || not (is_word (λ c. is_alnum c || (c == b'_') || (c == b'-')) cs)
        || is_within (b'.' ∷ b'.' ∷ []) cs
        || starts_with cs (b'/' ∷ [])
        || has_windows_drive cs
        || has_control cs)
      (app_error "job.identity_invalid" name)

pub data JobState : Type 0 where
  pending running interrupted failed cancelled succeeded : JobState

-- What the journal needs of a job's configuration: its decoding, `pipeline_profile`, and the
-- comparison of `runtime_signature`.
pub record ConfigCodec (C : Type 0) : Type 0 where
  pub decode : Value → Result C
  pub profile : C → PipelineProfile
  pub same_signature : C → C → Bool

-- The comparison is that of values of some type, as it is where signatures are tuples.
pub record ComparesSignatures {C : Type 0} (codec : ConfigCodec C) : Type 0 where
  pub reflexive : (a : C) → codec.same_signature a a ≡ true
  pub euclidean :
      (a b c : C)
      → codec.same_signature a b ≡ true
      → codec.same_signature a c ≡ true
      → codec.same_signature b c ≡ true

pub record JobProjection (C : Type 0) : Type 0 where
  pub job_id : String
  pub input_path : String
  pub config : C
  pub state : JobState
  pub stages : List StageProjection

abbrev pub stage_names : List StageProjection → List StageName
stage_names = map (λ s. s.name)

unfoldable pub same_names : List StageName → List StageName → Bool
same_names [] [] = true
same_names (a ∷ names) (b ∷ bs) = is_stage a b && same_names names bs
same_names _ _ = false

-- `stages`, or a fresh projection for each stage of the plan where `stages` is empty
unfoldable pub or_fresh : List StageProjection → List StageName → List StageProjection
or_fresh [] plan = map (λ n. stage_projection n StageState.pending 0) plan
or_fresh (s ∷ ss) plan = s ∷ ss

module _ {C : Type 0} (codec : ConfigCodec C) where
  -- The constructor with the checks of `__post_init__`; `dataclasses.replace` calls it too.
  unfoldable pub job_projection :
      String → String → C → JobState → List StageProjection → Result (JobProjection C)
  unfolding validate_identifier is_absolute_path or_fresh same_names
  job_projection id path config state given = do
    validate_identifier id "job_id"
    raise_if (not (is_absolute_path path)) (app_error "job.config_invalid" "input_path")
    let expected = stage_plan_for (codec.profile config)
    let stages = or_fresh given expected
    raise_if (not (same_names (stage_names stages) expected))
        (app_error "job.stage_plan_invalid" id)
    ok (record { job_id = id; input_path = path; config = config; state = state; stages = stages })

  -- `replace(job, config=..., state=..., stages=...)`
  unfoldable pub replace_job :
      JobProjection C → C → JobState → List StageProjection → Result (JobProjection C)
  replace_job job config state stages = job_projection job.job_id job.input_path config state stages

unfoldable pub find_stage : StageName → List StageProjection → Option StageProjection
find_stage n [] = none
find_stage n (s ∷ ss) = if is_stage s.name n then some s else find_stage n ss
