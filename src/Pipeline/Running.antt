-- ===== src/Pipeline/Running.antt =====
-- core/application/durable_pipeline.py: running the jobs of a batch leaves the projection the
-- journal's where it returns.
use video_captioner_z.Base.{String, Bool, true, false, List, [], ◌∷◌, AppError}
use video_captioner_z.Stage.{StageName}
use video_captioner_z.Job.{ConfigCodec, JobProjection}
use video_captioner_z.Service.{returns, catches, ◌>>◌, EventFactory}
use video_captioner_z.StageExecutor.{raise_if_cancelled}
use video_captioner_z.Service.Preserves.{
  Preserves, Preserves-returns, Preserves-pure, Preserves-reads, Preserves-if, Preserves-bind,
}
use video_captioner_z.Service.Coherent.{Start, IsCoherent, Preserves-ask, Preserves-job_of}
use video_captioner_z.Service.Methods.{
  Leads, Leads-bind, Leads-catches, Leads-if, Leads-Preserves, Keeps, Restores, Keeps-kept,
  Keeps-returns, Restores-raises, Keeps-method, reload-Restores, Keeps-bind, Keeps-if,
  Keeps-catches, keeps_rules,
}
use video_captioner_z.StageExecutor.Coherence.{Preserves-raise_if_cancelled, execute-Keeps}
use video_captioner_z.Pipeline.Coherence.{acknowledge-Keeps}
use video_captioner_z.Pipeline.Run.{
  StageRunners, pauses_before, any_marked, run_stage, run_stages, record_error, job_failed_with,
  late_cancellation, finish_job, run_job, next_job_after, after_job, run_jobs, answer_requests, run,
}

module _ {C : Type 0} {codec : ConfigCodec C} {base : Start} where
  Preserves-pauses_before : (b : Bool) → Preserves (IsCoherent codec base) (pauses_before b)
  unfolding pauses_before
  Preserves-pauses_before true = Preserves-returns false
  Preserves-pauses_before false = Preserves-ask

  Preserves-any_marked :
      (jobs : List (JobProjection C)) → Preserves (IsCoherent codec base) (any_marked jobs)
  unfolding any_marked
  Preserves-any_marked [] = Preserves-returns false
  Preserves-any_marked (j ∷ jobs) =
      Preserves-bind _ _ Preserves-ask
        (λ _. Preserves-if _ _ _ (Preserves-returns true) (Preserves-any_marked jobs))

module _ {C : Type 0} (codec : ConfigCodec C) (factory : EventFactory) (runners : StageRunners C)
    (base : Start) where
  Keeps-run_stage :
      (j : JobProjection C) (n : StageName) → Keeps codec base (run_stage codec factory runners j n)
  unfolding run_stage
  Keeps-run_stage j n = search (keeps_rules, execute-Keeps) depth 20

  Keeps-run_stages :
      (id : String) (plan : List StageName)
      → Keeps codec base (run_stages codec factory runners id plan)
  unfolding run_stages
  Keeps-run_stages id [] = Keeps-returns true
  Keeps-run_stages id (n ∷ plan) = Keeps-bind _ _ (Keeps-kept _ Preserves-raise_if_cancelled) (λ _.
      Keeps-bind _ _ (Keeps-kept _ (Preserves-job_of id)) (λ j.
        Keeps-bind _ _ (Keeps-kept _ (Preserves-pure _)) (λ s.
          Keeps-bind _ _ (Keeps-kept _ (Preserves-pauses_before _)) (λ paused.
            Keeps-if _ _ _ (Keeps-returns false)
              (Keeps-bind _ _ (Keeps-run_stage j n) (λ _. Keeps-run_stages id plan))))))

  -- the handler reloads the projection, which a stage that raised has left behind the journal
  Restores-job_failed_with :
      (id : String) (e : AppError)
      → Restores codec base (job_failed_with codec factory runners id e)
  unfolding job_failed_with record_error
  Restores-job_failed_with id e =
      Leads-bind _ _ reload-Restores (λ _. search (keeps_rules, acknowledge-Keeps) depth 30)

  Keeps-late_cancellation :
      (id : String) (e : AppError) → Keeps codec base (late_cancellation codec factory runners id e)
  unfolding late_cancellation
  Keeps-late_cancellation id e = search (keeps_rules, acknowledge-Keeps) depth 30

  Keeps-finish_job :
      (id : String) (completed : Bool)
      → Keeps codec base (finish_job codec factory runners id completed)
  unfolding finish_job
  Keeps-finish_job id false = Keeps-returns tt
  Keeps-finish_job id true = Keeps-bind _ _ (Keeps-kept _ (Preserves-job_of id)) (λ job.
      Keeps-if _ _ _ (Keeps-returns tt) (
        Keeps-bind _ _
          (Leads-catches _ _ (kept_so_far Preserves-raise_if_cancelled)
            (Keeps-late_cancellation id))
          (λ _. search keeps_rules depth 30)))
    where
      kept_so_far :
          Preserves (IsCoherent codec base) (raise_if_cancelled {C = C})
          → Leads
              (IsCoherent codec base)
              (IsCoherent codec base)
              (IsCoherent codec base)
              (raise_if_cancelled {C = C})
      kept_so_far h = Leads-Preserves _ (λ w k. k) h

  Keeps-run_job : (id : String) → Keeps codec base (run_job codec factory runners id)
  unfolding run_job
  Keeps-run_job id = Keeps-method _ (
      Keeps-bind _ _ (Keeps-kept _ (Preserves-job_of id)) (λ job.
        Keeps-bind _ _ (Keeps-catches _ _ (Keeps-run_stages id _) (Restores-job_failed_with id))
          (λ completed. Keeps-finish_job id completed)))

  -- the next job runs on a reloaded projection
  Restores-next_job_after :
      (e : AppError) → Restores codec base (next_job_after codec factory runners e)
  unfolding next_job_after
  Restores-next_job_after e =
      Leads-bind _ _ (Leads-Preserves _ (λ w h. h) (Preserves-reads _)) (λ p.
        Leads-if _ _ _ (Leads-bind _ _ reload-Restores (λ _. Keeps-returns false))
          (Restores-raises e))

  Keeps-after_job : Keeps codec base (after_job codec factory runners)
  unfolding after_job
  Keeps-after_job = search (keeps_rules, acknowledge-Keeps) depth 20

  Keeps-job_tried :
      (id : String)
      → Keeps codec base (
          catches
            (do run_job codec factory runners id; returns true)
            (next_job_after codec factory runners))
  Keeps-job_tried id =
      Keeps-catches _ _ (Keeps-bind _ _ (Keeps-run_job id) (λ _. Keeps-returns true))
        Restores-next_job_after

  Keeps-run_jobs :
      (jobs : List (JobProjection C)) → Keeps codec base (run_jobs codec factory runners jobs)
  unfolding run_jobs
  Keeps-run_jobs [] = Keeps-returns tt
  Keeps-run_jobs (j ∷ jobs) =
      let rest = Keeps-run_jobs jobs in
      Keeps-if _ _ _ rest (
        Keeps-bind _ _ (Keeps-kept _ Preserves-ask) (λ batch.
          Keeps-bind _ _ (search (keeps_rules, acknowledge-Keeps) depth 20) (λ _.
            Keeps-bind _ _ (Keeps-kept _ Preserves-ask) (λ paused.
              Keeps-if _ _ _ (Keeps-returns tt) (
                Keeps-bind _ _ (Keeps-job_tried j.job_id) (λ returned.
                  Keeps-bind _ _ (Keeps-if _ _ _ Keeps-after_job (Keeps-returns true))
                    (λ goes_on. Keeps-if _ _ _ rest (Keeps-returns tt))))))))

  Keeps-answer_requests :
      (jobs : List (JobProjection C))
      → Keeps codec base (answer_requests codec factory runners jobs)
  unfolding answer_requests
  Keeps-answer_requests jobs =
      search (keeps_rules, Preserves-any_marked, acknowledge-Keeps) depth 30

  pub Keeps-run : Keeps codec base (run codec factory runners)
  unfolding run
  Keeps-run =
      Keeps-method _
        (search (keeps_rules, Preserves-any_marked, Keeps-answer_requests, Keeps-run_jobs) depth 30)
