-- ===== src/Stage.antt =====
-- core/domain/stage.py: the pipeline's stages, its profiles and the durable plan of each profile.
use video_captioner_z.Base.{
  ℕ, suc, String, Bool, true, false, Option, none, some, List, [], ◌∷◌, map, str_eq, if◌then◌else◌,
}
use video_captioner_z.Artifact.{ArtifactRef}

pub data StageName : Type 0 where
  inspect normalize transcribe correct_source segment translate review export publish : StageName

pub data PipelineProfile : Type 0 where
  deterministic fast quality : PipelineProfile

pub data StageState : Type 0 where
  pending running interrupted failed cancelled committed invalidated : StageState

unfoldable pub StageName-discrete : Discrete StageName
StageName-discrete = hlevel

-- `a is b` on stage names
abbrev pub is_stage : StageName → StageName → Bool
is_stage a b = elim (StageName-discrete a b) [ yes _ ↦ true | no _ ↦ false ]

-- `stage.value`
unfoldable pub stage_value : StageName → String
stage_value inspect = "inspect"
stage_value normalize = "normalize"
stage_value transcribe = "transcribe"
stage_value correct_source = "correct_source"
stage_value segment = "segment"
stage_value translate = "translate"
stage_value review = "review"
stage_value export = "export"
stage_value publish = "publish"

abbrev all_stages : List StageName
all_stages =
    inspect ∷ normalize ∷ transcribe ∷ correct_source ∷ segment ∷ translate ∷ review ∷ export
    ∷ publish ∷ []

stage_with_value : List StageName → String → Option StageName
unfolding stage_value
stage_with_value [] s = none
stage_with_value (n ∷ ns) s = if str_eq (stage_value n) s then some n else stage_with_value ns s

-- `StageName(s)`; `none` is its `ValueError`
unfoldable pub stage_name : String → Option StageName
unfolding stage_with_value
stage_name s = stage_with_value all_stages s

-- The callers modelled here have a profile; the function also takes its name, and raises a
-- `ValueError` where there is none of that name.
unfoldable pub stage_plan_for : PipelineProfile → List StageName
stage_plan_for deterministic = inspect ∷ normalize ∷ transcribe ∷ segment ∷ export ∷ publish ∷ []
stage_plan_for fast = inspect ∷ normalize ∷ transcribe ∷ segment ∷ translate ∷ export ∷ publish ∷ []
stage_plan_for quality =
    inspect ∷ normalize ∷ transcribe ∷ correct_source ∷ segment ∷ translate ∷ review ∷ export
    ∷ publish ∷ []

stage_version : PipelineProfile → StageName → String
stage_version selected inspect = "inspect-v1"
stage_version selected normalize = "normalize-v1"
stage_version selected transcribe = "transcribe-v1"
stage_version selected correct_source = "correct-source-v2"
stage_version selected segment = "segment-v2"
stage_version quality translate = "translate-quality-v2"
stage_version _ translate = "translate-v2"
stage_version selected review = "review-v2"
stage_version selected export = "export-v3"
stage_version selected publish = "publish-v3"

-- the entries of the returned mapping, in its order
unfoldable pub stage_versions_for : PipelineProfile → List (String × String)
unfolding stage_version stage_value stage_plan_for
stage_versions_for selected =
    map (λ n. (stage_value n, stage_version selected n)) (stage_plan_for selected)

pub record StageProjection : Type 0 where
  pub name : StageName
  pub state : StageState
  pub attempt : ℕ
  pub cache_key : Option String
  pub artifacts : List ArtifactRef

-- `StageProjection(name, state, attempt)`, with the class's defaults
abbrev pub stage_projection : StageName → StageState → ℕ → StageProjection
stage_projection n s a = record {
  name = n;
  state = s;
  attempt = a;
  cache_key = none;
  artifacts = [];
}

abbrev pub is_committed : StageState → Bool
is_committed committed = true
is_committed _ = false

abbrev pub is_running : StageState → Bool
is_running running = true
is_running _ = false

abbrev pub is_pending : StageState → Bool
is_pending pending = true
is_pending _ = false

-- `plan.index(stage)`; the callers have looked the stage up before
unfoldable pub index : StageName → List StageName → ℕ
index n [] = 0
index n (m ∷ ms) = if is_stage m n then 0 else suc (index n ms)

-- `stage in plan`
unfoldable pub in_plan : StageName → List StageName → Bool
in_plan n [] = false
in_plan n (m ∷ ms) = if is_stage m n then true else in_plan n ms

dependencies_after : StageName → StageName → List StageName → List StageName
dependencies_after prior n [] = []
dependencies_after prior n (m ∷ ms) = if is_stage m n then prior ∷ [] else dependencies_after m n ms

-- the stage before `n` in the plan, if `n` is not the first
unfoldable pub dependencies : StageName → List StageName → List StageName
unfolding dependencies_after
dependencies n [] = []
dependencies n (m ∷ ms) = if is_stage m n then [] else dependencies_after m n ms

-- `plan[plan.index(stage):]`
unfoldable pub stage_suffix : StageName → List StageName → List StageName
stage_suffix n [] = []
stage_suffix n (m ∷ ms) = if is_stage m n then m ∷ ms else stage_suffix n ms
