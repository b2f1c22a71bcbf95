-- ===== src/Pipeline/Coherence.antt =====
-- core/application/durable_pipeline.py: cancelling and repairing keep the journal and the projection
-- in agreement.
use video_captioner_z.Base.{String, Bool, true, false, Option, none, some, List, [], ◌∷◌}
use video_captioner_z.Artifact.{ArtifactRef}
use video_captioner_z.Stage.{StageName, StageProjection}
use video_captioner_z.Job.{ConfigCodec, JobProjection}
use video_captioner_z.Event.{JournalEvent}
use video_captioner_z.Service.{EventFactory}
use video_captioner_z.Service.Preserves.{
  Preserves, Preserves-returns, Preserves-pure, Preserves-if, Preserves-bind,
}
use video_captioner_z.Service.Coherent.{Start, IsCoherent, Preserves-call, Preserves-job_of}
use video_captioner_z.Service.Append.{Preserves-append_event}
use video_captioner_z.Service.Methods.{Keeps, method-Keeps, service_rules}
use video_captioner_z.Pipeline.Repair.{
  BadArtifact, shows_bad, check_artifacts, check_stages, check_jobs, remove_corrupt,
  check_publications, invalidate_stage, invalidate_jobs, invalidate_corrupt_artifacts,
  interrupt_stages, interrupt_jobs, interrupt_open_attempts,
}
use video_captioner_z.Pipeline.Cancellation.{
  targets, clear_markers, clear_batch_markers, cancel_running, cancel_job, cancel_jobs,
  finish_cancellation, acknowledge_cancel_requests,
}

module _ {C : Type 0} {codec : ConfigCodec C} {base : Start} where
  Preserves-targets :
      (batch : Bool) (active : Option String) (jobs : List (JobProjection C))
      → Preserves (IsCoherent codec base) (targets batch active jobs)
  unfolding targets
  Preserves-targets batch active [] = Preserves-returns []
  Preserves-targets batch active (j ∷ jobs) =
      Preserves-bind _ _ (search (service_rules) depth 20)
        (λ _. search (service_rules, Preserves-targets batch active jobs) depth 20)

  Preserves-clear_markers :
      (ids : List String) → Preserves (IsCoherent codec base) (clear_markers ids)
  unfolding clear_markers
  Preserves-clear_markers [] = Preserves-returns tt
  Preserves-clear_markers (id ∷ ids) = Preserves-bind _ _ (Preserves-job_of id) (λ job.
      Preserves-bind _ _ (Preserves-if _ _ _ Preserves-call (Preserves-returns tt))
        (λ _. Preserves-clear_markers ids))

  Preserves-clear_batch_markers :
      (batch : Bool) → Preserves (IsCoherent codec base) (clear_batch_markers batch)
  unfolding clear_batch_markers
  Preserves-clear_batch_markers true = search service_rules
  Preserves-clear_batch_markers false = search service_rules

module _ {C : Type 0} (codec : ConfigCodec C) (factory : EventFactory) (base : Start) where
  Preserves-cancel_running :
      (id : String) (stages : List StageProjection)
      → Preserves (IsCoherent codec base) (cancel_running codec factory id stages)
  unfolding cancel_running
  Preserves-cancel_running id [] = Preserves-returns tt
  Preserves-cancel_running id (s ∷ stages) =
      Preserves-bind _ _ (search (service_rules) depth 20)
        (λ _. search (service_rules, Preserves-cancel_running id stages) depth 20)

  Preserves-cancel_job :
      (events : List JournalEvent) (id : String)
      → Preserves (IsCoherent codec base) (cancel_job codec factory events id)
  unfolding cancel_job
  Preserves-cancel_job events id = search (service_rules, Preserves-cancel_running) depth 20

  Preserves-cancel_jobs :
      (events : List JournalEvent) (targeted : List String) (jobs : List (JobProjection C))
      → Preserves (IsCoherent codec base) (cancel_jobs codec factory events targeted jobs)
  unfolding cancel_jobs
  Preserves-cancel_jobs events targeted [] = Preserves-returns tt
  Preserves-cancel_jobs events targeted (j ∷ jobs) =
      Preserves-bind _ _ (search (service_rules, Preserves-cancel_job) depth 20)
        (λ again. Preserves-cancel_jobs again targeted jobs)

  Preserves-finish_cancellation :
      (batch : Bool) (targeted : List String) (jobs : List (JobProjection C))
      → Preserves (IsCoherent codec base) (finish_cancellation codec factory batch targeted jobs)
  unfolding finish_cancellation
  Preserves-finish_cancellation batch [] jobs = Preserves-returns tt
  Preserves-finish_cancellation batch (id ∷ targeted) jobs =
      search
        (
          service_rules, Preserves-cancel_jobs, Preserves-clear_markers,
          Preserves-clear_batch_markers,
        )
        depth 20

  pub acknowledge-Keeps :
      (active : Option String) → Keeps codec base (acknowledge_cancel_requests codec factory active)
  unfolding acknowledge_cancel_requests
  acknowledge-Keeps active =
      method-Keeps _
        (search (service_rules, Preserves-targets, Preserves-finish_cancellation) depth 20)

module _ {C : Type 0} {codec : ConfigCodec C} {base : Start} where
  Preserves-shows_bad : (bad : String → Bool) → Preserves (IsCoherent codec base) (shows_bad bad)
  unfolding shows_bad
  Preserves-shows_bad bad = search service_rules depth 20

  Preserves-check_artifacts :
      (id : String) (n : StageName) (refs : List ArtifactRef)
      → Preserves (IsCoherent codec base) (check_artifacts id n refs)
  unfolding check_artifacts
  Preserves-check_artifacts id n [] = Preserves-returns []
  Preserves-check_artifacts id n (a ∷ refs) =
      Preserves-bind _ _ (Preserves-shows_bad _)
        (λ _. Preserves-bind _ _ (Preserves-check_artifacts id n refs) (λ _. Preserves-returns _))

  Preserves-check_stages :
      (id : String) (stages : List StageProjection)
      → Preserves (IsCoherent codec base) (check_stages id stages)
  unfolding check_stages
  Preserves-check_stages id [] = Preserves-returns []
  Preserves-check_stages id (s ∷ stages) =
      Preserves-bind _ _
        (Preserves-if _ _ _ (Preserves-check_artifacts id s.name s.artifacts)
          (Preserves-returns []))
        (λ _. Preserves-bind _ _ (Preserves-check_stages id stages) (λ _. Preserves-returns _))

  Preserves-check_jobs :
      (jobs : List (JobProjection C)) → Preserves (IsCoherent codec base) (check_jobs jobs)
  unfolding check_jobs
  Preserves-check_jobs [] = Preserves-returns []
  Preserves-check_jobs (j ∷ jobs) =
      Preserves-bind _ _ (Preserves-check_stages j.job_id j.stages)
        (λ _. Preserves-bind _ _ (Preserves-check_jobs jobs) (λ _. Preserves-returns _))

  Preserves-remove_corrupt :
      (bad : List BadArtifact) → Preserves (IsCoherent codec base) (remove_corrupt bad)
  unfolding remove_corrupt
  Preserves-remove_corrupt [] = Preserves-returns tt
  Preserves-remove_corrupt (a ∷ bad) =
      Preserves-bind _ _ Preserves-call (λ _. Preserves-remove_corrupt bad)

module _ {C : Type 0} (codec : ConfigCodec C) (factory : EventFactory) (base : Start) where
  Preserves-check_publications :
      (bad : List BadArtifact) (jobs : List (JobProjection C))
      → Preserves (IsCoherent codec base) (check_publications codec factory bad jobs)
  unfolding check_publications
  Preserves-check_publications bad [] = Preserves-returns []
  Preserves-check_publications bad (j ∷ jobs) = Preserves-bind _ _ (Preserves-pure _) (λ _.
      Preserves-bind _ _ (Preserves-if _ _ _ (Preserves-returns _) (Preserves-shows_bad _)) (λ _.
        Preserves-bind _ _ (Preserves-check_publications bad jobs) (λ _. Preserves-returns _)))

  Preserves-invalidate_stage :
      (j : JobProjection C) (n : Option StageName)
      → Preserves (IsCoherent codec base) (invalidate_stage codec factory j n)
  unfolding invalidate_stage
  Preserves-invalidate_stage j none = Preserves-returns tt
  Preserves-invalidate_stage j (some n) =
      Preserves-bind _ _ (Preserves-pure _) (λ _. Preserves-append_event factory _ _)

  Preserves-invalidate_jobs :
      (bad : List BadArtifact) (unpublished : List String) (jobs : List (JobProjection C))
      → Preserves (IsCoherent codec base) (invalidate_jobs codec factory bad unpublished jobs)
  unfolding invalidate_jobs
  Preserves-invalidate_jobs bad unpublished [] = Preserves-returns tt
  Preserves-invalidate_jobs bad unpublished (j ∷ jobs) =
      Preserves-bind _ _ (Preserves-invalidate_stage j _)
        (λ _. Preserves-invalidate_jobs bad unpublished jobs)

  pub invalidate-Keeps : Keeps codec base (invalidate_corrupt_artifacts codec factory)
  unfolding invalidate_corrupt_artifacts
  invalidate-Keeps = method-Keeps _ (
      search
        (
          service_rules, Preserves-check_jobs, Preserves-remove_corrupt,
          Preserves-check_publications, Preserves-invalidate_jobs,
        )
        depth 20)

  Preserves-interrupt_stages :
      (id : String) (stages : List StageProjection)
      → Preserves (IsCoherent codec base) (interrupt_stages codec factory id stages)
  unfolding interrupt_stages
  Preserves-interrupt_stages id [] = Preserves-returns tt
  Preserves-interrupt_stages id (s ∷ stages) =
      Preserves-bind _ _
        (Preserves-if _ _ _ (Preserves-append_event factory _ _) (Preserves-returns tt))
        (λ _. Preserves-interrupt_stages id stages)

  Preserves-interrupt_jobs :
      (jobs : List (JobProjection C))
      → Preserves (IsCoherent codec base) (interrupt_jobs codec factory jobs)
  unfolding interrupt_jobs
  Preserves-interrupt_jobs [] = Preserves-returns tt
  Preserves-interrupt_jobs (j ∷ jobs) =
      Preserves-bind _ _ (Preserves-interrupt_stages j.job_id j.stages)
        (λ _. Preserves-interrupt_jobs jobs)

  pub interrupt-Keeps : Keeps codec base (interrupt_open_attempts codec factory)
  unfolding interrupt_open_attempts
  interrupt-Keeps = method-Keeps _ (search (service_rules, Preserves-interrupt_jobs) depth 20)
