-- ===== src/StageExecutor/Coherence.antt =====
-- core/application/stage_executor.py: whatever fails, the journal's events replay, and a stage that
-- is executed leaves the projection in agreement with them.
use video_captioner_z.Base.{String, ℕ, refl, List, [], ◌∷◌, AppError}
use video_captioner_z.Artifact.{ArtifactRef}
use video_captioner_z.Stage.{StageName, StageProjection}
use video_captioner_z.Job.{ConfigCodec}
use video_captioner_z.Service.{EventFactory}
use video_captioner_z.Service.Preserves.{Preserves, Preserves-returns, Preserves-bind}
use video_captioner_z.Service.Coherent.{Start, IsCoherent, Preserves-call, Preserves-writes}
use video_captioner_z.Service.Methods.{
  Preserves-read_snapshot, repair_and_read-IsCoherent, Ends, Leads, Leads-bind, Leads-catches,
  Leads-if, Leads-Preserves, Keeps, Restores, Keeps-kept, Keeps-raises, Keeps-returns,
  Restores-raises, Keeps-method, method-Keeps, Keeps-refresh, reload-Restores, Keeps-reload,
  service_rules, keeps_rules,
}
use video_captioner_z.StageExecutor.{
  begin, set_committed, set_cancelled, set_reason, raise_if_cancelled, verify_all, verify_committed,
  require_outputs, make_artifacts, after_commit, attempt_stage, handle_cancellation, handle_failure,
  handle_error, cleanup_failed, clean_up, run_attempt, start_attempt, execute,
}

module _ {C : Type 0} {codec : ConfigCodec C} {base : Start} where
  pub Preserves-begin : Preserves (IsCoherent codec base) begin
  unfolding begin
  Preserves-begin = Preserves-writes _ (λ w. (refl, refl, refl, refl))

  pub Preserves-set_committed : Preserves (IsCoherent codec base) set_committed
  unfolding set_committed
  Preserves-set_committed = Preserves-writes _ (λ w. (refl, refl, refl, refl))

  pub Preserves-set_cancelled : Preserves (IsCoherent codec base) set_cancelled
  unfolding set_cancelled
  Preserves-set_cancelled = Preserves-writes _ (λ w. (refl, refl, refl, refl))

  pub Preserves-set_reason :
      (reason : String) → Preserves (IsCoherent codec base) (set_reason reason)
  unfolding set_reason
  Preserves-set_reason reason = Preserves-writes _ (λ w. (refl, refl, refl, refl))

  pub Preserves-raise_if_cancelled : Preserves (IsCoherent codec base) raise_if_cancelled
  unfolding raise_if_cancelled
  Preserves-raise_if_cancelled = search service_rules

  pub Preserves-verify_all :
      (refs : List ArtifactRef) → Preserves (IsCoherent codec base) (verify_all refs)
  unfolding verify_all
  Preserves-verify_all [] = Preserves-returns tt
  Preserves-verify_all (ref ∷ refs) =
      Preserves-bind _ _ Preserves-call (λ _. Preserves-verify_all refs)

  pub Preserves-verify_committed :
      (s : StageProjection) → Preserves (IsCoherent codec base) (verify_committed s)
  unfolding verify_committed
  Preserves-verify_committed s = search (service_rules, Preserves-verify_all)

  pub Preserves-require_outputs :
      (n : StageName) (refs : List ArtifactRef)
      → Preserves (IsCoherent codec base) (require_outputs n refs)
  unfolding require_outputs
  Preserves-require_outputs n refs = search service_rules

pub ruleset executor_rules = (
  service_rules, Preserves-begin, Preserves-set_committed, Preserves-set_cancelled,
  Preserves-set_reason, Preserves-raise_if_cancelled, Preserves-verify_all,
  Preserves-verify_committed, Preserves-require_outputs,
)

module _ {C : Type 0} (codec : ConfigCodec C) (factory : EventFactory) (base : Start) where
  Preserves-make_artifacts :
      (id : String) (n : StageName) (attempt : ℕ)
      → Preserves (IsCoherent codec base) (make_artifacts codec factory id n attempt)
  unfolding make_artifacts
  Preserves-make_artifacts id n attempt = search executor_rules depth 40

  Preserves-after_commit :
      (refs : List ArtifactRef)
      → Preserves (IsCoherent codec base) (after_commit codec factory refs)
  unfolding after_commit
  Preserves-after_commit refs = search executor_rules depth 40

  Preserves-attempt_stage :
      (id : String) (n : StageName) (key : String) (attempt : ℕ)
      → Preserves (IsCoherent codec base) (attempt_stage codec factory id n key attempt)
  unfolding attempt_stage
  Preserves-attempt_stage id n key attempt =
      search (executor_rules, Preserves-make_artifacts, Preserves-after_commit) depth 20

  Preserves-handle_error :
      (id : String) (n : StageName) (attempt : ℕ) (e : AppError)
      → Preserves (IsCoherent codec base) (handle_error codec factory id n attempt e)
  unfolding handle_error handle_cancellation handle_failure
  Preserves-handle_error id n attempt e = search executor_rules depth 40

  Preserves-clean_up : Preserves (IsCoherent codec base) (clean_up codec factory)
  unfolding clean_up cleanup_failed
  Preserves-clean_up = search executor_rules depth 20

  Preserves-run_attempt :
      (id : String) (n : StageName) (key : String) (attempt : ℕ)
      → Preserves (IsCoherent codec base) (run_attempt codec factory id n key attempt)
  unfolding run_attempt
  Preserves-run_attempt id n key attempt =
      search (executor_rules, Preserves-attempt_stage, Preserves-handle_error, Preserves-clean_up)
        depth 20

  -- Whatever the runner, the stores and the file system answer, an execution of a stage leaves a
  -- journal that continues the one it found and that replays; where it returns, the projection is
  -- the journal's.
  pub execute-Keeps :
      (id : String) (n : StageName) (key : String)
      → Keeps codec base (execute codec factory id n key)
  unfolding execute start_attempt
  execute-Keeps id n key = method-Keeps _ (search (executor_rules, Preserves-run_attempt) depth 30)
