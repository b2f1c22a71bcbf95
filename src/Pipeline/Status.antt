-- ===== src/Pipeline/Status.antt =====
-- core/application/durable_pipeline.py: reading the status leaves the journal alone.
use video_captioner_z.Base.{String, Bool, List, [], ◌∷◌}
use video_captioner_z.Artifact.{ArtifactRef}
use video_captioner_z.Stage.{StageName, StageProjection, is_stage, publish}
use video_captioner_z.Job.{ConfigCodec, JobProjection}
use video_captioner_z.Service.{returns}
use video_captioner_z.Service.Preserves.{
  Preserves, Preserves-returns, Preserves-raises, Preserves-if, Preserves-bind,
}
use video_captioner_z.Service.Coherent.{Start, IsCoherent}
use video_captioner_z.Service.Methods.{service_rules}
use video_captioner_z.Pipeline.{
  IntegrityIssue, finds_code, check_publication, blob_issues, publication_issues, stage_issues,
  job_issues, raise_first,
}

module _ {C : Type 0} {codec : ConfigCodec C} {base : Start} where
  Preserves-finds_code :
      (expected : String → Bool) → Preserves (IsCoherent codec base) (finds_code expected)
  unfolding finds_code
  Preserves-finds_code expected = search service_rules depth 20

  Preserves-blob_issues :
      (id : String) (n : StageName) (refs : List ArtifactRef)
      → Preserves (IsCoherent codec base) (blob_issues id n refs)
  unfolding blob_issues
  Preserves-blob_issues id n [] = Preserves-returns []
  Preserves-blob_issues id n (a ∷ refs) =
      Preserves-bind _ _ (Preserves-finds_code _)
        (λ _. Preserves-bind _ _ (Preserves-blob_issues id n refs) (λ _. Preserves-returns _))

  Preserves-check_publication :
      (id : String) (n : StageName) → Preserves (IsCoherent codec base) (check_publication id n)
  unfolding check_publication
  Preserves-check_publication id n = search (service_rules, Preserves-finds_code) depth 20

  Preserves-publication_issues :
      (id : String) (n : StageName) (issues : List IntegrityIssue)
      → Preserves (IsCoherent codec base) (publication_issues id n issues)
  unfolding publication_issues
  Preserves-publication_issues id n (i ∷ issues) = Preserves-returns _
  Preserves-publication_issues id n [] =
      Preserves-if (is_stage n publish) (check_publication id n) (returns [])
        (Preserves-check_publication id n) (Preserves-returns [])

  Preserves-stage_issues :
      (id : String) (stages : List StageProjection)
      → Preserves (IsCoherent codec base) (stage_issues id stages)
  unfolding stage_issues
  Preserves-stage_issues id [] = Preserves-returns []
  Preserves-stage_issues id (s ∷ stages) =
      Preserves-bind _ _
        (Preserves-if _ _ _
          (Preserves-bind _ _ (Preserves-blob_issues id s.name s.artifacts)
            (λ blobs. Preserves-publication_issues id s.name blobs))
          (Preserves-returns []))
        (λ _. Preserves-bind _ _ (Preserves-stage_issues id stages) (λ _. Preserves-returns _))

  pub Preserves-job_issues :
      (jobs : List (JobProjection C)) → Preserves (IsCoherent codec base) (job_issues jobs)
  unfolding job_issues
  Preserves-job_issues [] = Preserves-returns []
  Preserves-job_issues (j ∷ jobs) =
      Preserves-bind _ _ (Preserves-stage_issues j.job_id j.stages)
        (λ _. Preserves-bind _ _ (Preserves-job_issues jobs) (λ _. Preserves-returns _))

  pub Preserves-raise_first :
      (issues : List IntegrityIssue) → Preserves (IsCoherent codec base) (raise_first issues)
  unfolding raise_first
  Preserves-raise_first [] = Preserves-returns tt
  Preserves-raise_first (i ∷ issues) = Preserves-raises _
