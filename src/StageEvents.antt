-- ===== src/StageEvents.antt =====
-- core/domain/journal.py: what an event does to the list of a job's stages.
pub mod Steps
pub mod Terminal
pub mod Reconfigure
use video_captioner_z.Base.{
  ℕ, suc, String, Bool, true, false, not, ◌&&◌, Option, none, some, List, [], ◌∷◌, any, leb, length,
  ◌==◌, if◌then◌else◌, Result, ok, ◌>>=◌, ◌>>◌, raise_if, app_error,
}
use video_captioner_z.Text.{codes, starts_with}
use video_captioner_z.Json.{Value, array, Fields, get, items_list}
use video_captioner_z.Artifact.{ArtifactRef, artifacts_from}
use video_captioner_z.Stage.{
  StageName, StageProjection, pending, interrupted, failed, cancelled, committed, invalidated,
  stage_projection, is_committed, is_stage, index, dependencies, stage_suffix,
}
use video_captioner_z.Job.{JobState, find_stage, stage_names}
use video_captioner_z.Event.{
  EventType, stage_interrupted, stage_failed, stage_cancelled, stage_committed, transition_invalid,
  required_str,
}

-- `stages[plan.index(n)] = f(stages[plan.index(n)])`, `plan` being the names of the stages
unfoldable pub modify_stage :
    StageName → (StageProjection → StageProjection) → List StageProjection → List StageProjection
modify_stage n f [] = []
modify_stage n f (s ∷ ss) = if is_stage s.name n then f s ∷ ss else s ∷ modify_stage n f ss

-- the loop over the names of a suffix of the plan
unfoldable pub modify_stages :
    (StageProjection → StageProjection)
    → List StageName
    → List StageProjection
    → List StageProjection
modify_stages f [] stages = stages
modify_stages f (n ∷ ns) stages = modify_stages f ns (modify_stage n f stages)

abbrev pub invalidate : StageProjection → StageProjection
invalidate s = if is_committed s.state then record s { state = invalidated } else s

-- `_invalidate_suffix`
unfoldable pub invalidate_suffix : StageName → List StageProjection → List StageProjection
unfolding modify_stages modify_stage stage_suffix
invalidate_suffix n stages = modify_stages invalidate (stage_suffix n (stage_names stages)) stages

abbrev pub reset : StageProjection → StageProjection
reset s = stage_projection s.name pending s.attempt

-- the loop of `_retry_job`
unfoldable pub reset_suffix : StageName → List StageProjection → List StageProjection
unfolding modify_stages modify_stage stage_suffix
reset_suffix n stages = modify_stages reset (stage_suffix n (stage_names stages)) stages

-- `job.stage(n).state is COMMITTED`
unfoldable pub committed_at : List StageProjection → StageName → Bool
unfolding find_stage
committed_at stages n = elim (find_stage n stages) [ none ↦ false | some s ↦ is_committed s.state ]

-- a dependency of the stage is not committed
unfoldable pub is_blocked : List StageProjection → StageName → Bool
unfolding committed_at dependencies
is_blocked stages n =
    any (λ dep. not (committed_at stages dep)) (dependencies n (stage_names stages))

-- `"sha256:"` and 71 characters in all
unfoldable pub is_cache_key : String → Bool
unfolding starts_with
is_cache_key s = starts_with (codes s) (codes "sha256:") && (length (codes s) == 71)

artifacts_or_invalid : Value → Result (List ArtifactRef)
unfolding artifacts_from items_list
artifacts_or_invalid (array raw) = artifacts_from (items_list raw)
artifacts_or_invalid _ = transition_invalid "artifacts"

abbrev pub is_nil : List ArtifactRef → Bool
is_nil [] = true
is_nil (a ∷ r) = false

-- the branch of `_terminal_stage` for a commit
unfoldable pub commit_stage : StageProjection → Fields → Result (StageProjection × JobState)
unfolding required_str is_cache_key artifacts_or_invalid get
commit_stage current payload = do
  key ← required_str payload "cache_key"
  raise_if (not (is_cache_key key)) (app_error "journal.transition_invalid" "cache_key")
  artifacts ← artifacts_or_invalid (get payload "artifacts")
  raise_if (is_nil artifacts) (app_error "journal.transition_invalid" "artifacts")
  ok (
    record current { state = committed; cache_key = some key; artifacts = artifacts },
    JobState.running,
  )

-- `_terminal_stage`
unfoldable pub terminal_stage :
    EventType → StageProjection → Fields → Result (StageProjection × JobState)
unfolding commit_stage
terminal_stage stage_interrupted current payload =
    ok (record current { state = interrupted }, JobState.interrupted)
terminal_stage stage_failed current payload =
    ok (record current { state = failed }, JobState.failed)
terminal_stage stage_cancelled current payload =
    ok (record current { state = cancelled }, JobState.cancelled)
terminal_stage stage_committed current payload = commit_stage current payload
terminal_stage _ current payload = transition_invalid "stage_event"

abbrev past_boundary : Option ℕ → ℕ → Bool
past_boundary none i = false
past_boundary (some b) i = leb b i

-- one round of the loop of `_reconfigure_stages`, for the stage `n` at index `i` of the new plan
unfoldable pub reconfigure_stage :
    Option ℕ → ℕ → StageName → Option StageProjection → StageProjection
reconfigure_stage boundary i n none = stage_projection n pending 0
reconfigure_stage boundary i n (some prior) =
    if past_boundary boundary i
    then stage_projection n (if is_committed prior.state then invalidated else pending)
        prior.attempt
    else prior

unfoldable pub reconfigure_from :
    Option ℕ → ℕ → List StageName → List StageProjection → List StageProjection
unfolding reconfigure_stage find_stage
reconfigure_from boundary i [] previous = []
reconfigure_from boundary i (n ∷ plan) previous =
    reconfigure_stage boundary i n (find_stage n previous)
    ∷ reconfigure_from boundary (suc i) plan previous

-- `_reconfigure_stages`; the stages of a job have distinct names, so that the dictionary of the
-- previous ones is a search for the first
unfoldable pub reconfigure_stages :
    List StageName → Option StageName → List StageProjection → List StageProjection
unfolding reconfigure_from index
reconfigure_stages plan none previous = reconfigure_from none 0 plan previous
reconfigure_stages plan (some earliest) previous =
    reconfigure_from (some (index earliest plan)) 0 plan previous
