-- ===== src/StageEvents/Terminal.antt =====
-- The terminal events of a running attempt, read as steps of the stage; and what a committed stage
-- carries.
use video_captioner_z.Base.{
  String, ◌≡◌, Bool, true, false, Option, none, some, not, arith, Ensures, Ensures-ok, Ensures-err,
  ensures_rules,
}
use video_captioner_z.Json.{Fields}
use video_captioner_z.Stage.{StageProjection, is_running, is_committed}
use video_captioner_z.Job.{JobState}
use video_captioner_z.Event.{
  EventType, stage_interrupted, stage_failed, stage_cancelled, stage_committed,
}
use video_captioner_z.StageEvents.{commit_stage, terminal_stage, is_cache_key, is_nil}
use video_captioner_z.StageEvents.Steps.{
  StageStep, stay, start, close, commit, invalidated_step, reset_step, interrupted_closed,
  failed_closed, cancelled_closed,
}

not-false : (b : Bool) → not b ≡ false → b ≡ true
not-false b h = ground arith

commit_stage-StageStep :
    (s : StageProjection) (payload : Fields)
    → is_running s.state ≡ true
    → Ensures (λ (r : StageProjection × JobState). StageStep s r.0) (commit_stage s payload)
unfolding commit_stage
commit_stage-StageStep s payload h = search (ensures_rules, commit, not-false) depth 9

-- A terminal event of a running attempt makes a step of its stage.
pub terminal_stage-StageStep :
    (type : EventType) (s : StageProjection) (payload : Fields)
    → is_running s.state ≡ true
    → Ensures (λ (r : StageProjection × JobState). StageStep s r.0) (terminal_stage type s payload)
unfolding terminal_stage
terminal_stage-StageStep stage_interrupted s payload h = Ensures-ok _ (close _ h interrupted_closed)
terminal_stage-StageStep stage_failed s payload h = Ensures-ok _ (close _ h failed_closed)
terminal_stage-StageStep stage_cancelled s payload h = Ensures-ok _ (close _ h cancelled_closed)
terminal_stage-StageStep stage_committed s payload h = commit_stage-StageStep s payload h
terminal_stage-StageStep _ s payload h = Ensures-err _

abbrev has_key : Option String → Bool
has_key none = false
has_key (some k) = is_cache_key k

-- A committed stage names the cache key and the artifacts that it was committed with.
pub record IsSound (s : StageProjection) : Type 0 where
  pub keyed : is_committed s.state ≡ true → has_key s.cache_key ≡ true
  pub stored : is_committed s.state ≡ true → is_nil s.artifacts ≡ false

pub StageStep-IsSound : {s t : StageProjection} → StageStep s t → IsSound s → IsSound t
StageStep-IsSound stay h = h
StageStep-IsSound (start attempt l r) h = ground arith
StageStep-IsSound (close state r interrupted_closed) h = ground arith
StageStep-IsSound (close state r failed_closed) h = ground arith
StageStep-IsSound (close state r cancelled_closed) h = ground arith
StageStep-IsSound (commit key artifacts r k a) h = ground arith
StageStep-IsSound (invalidated_step c) h = ground arith
StageStep-IsSound reset_step h = ground arith
