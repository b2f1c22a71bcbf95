-- ===== src/Tests/Recovery.antt =====
-- A scan of a batch with a stale lease and of one that is scheduled.
use video_captioner_z.Base.{◌≡◌, refl, false, String, List, [], ◌∷◌, map, All, Any}
use video_captioner_z.Stage.{PipelineProfile, deterministic}
use video_captioner_z.Job.{JobState, JobProjection}
use video_captioner_z.Batch.{BatchState}
use video_captioner_z.Recovery.{
  RecoverySource, RecoveryItem, LeaseState, comes_first, recovery_item, scan,
}
use video_captioner_z.Recovery.Order.{InOrder}
use video_captioner_z.Recovery.Candidates.{IsOffered, scan-IsCandidate}

abbrev job : JobProjection PipelineProfile
job = record {
  job_id = "j";
  input_path = "/in";
  config = deterministic;
  state = JobState.pending;
  stages = [];
}

abbrev source : String → String → RecoverySource PipelineProfile
source id created = record {
  batch_id = id;
  created_at_utc = created;
  state = BatchState.pending;
  job_count = 1;
  pause_requested = false;
  missing_input_paths = [];
  last_event_seq = 2;
  lease_state = LeaseState.stale;
  projection = record { batch_id = id; jobs = job ∷ []; last_event_seq = 2; event_ids = [] };
}

abbrev sources : List (RecoverySource PipelineProfile)
sources = source "late" "2025" ∷ source "busy" "2024" ∷ source "early" "2024" ∷ []

-- The scheduled batch is left out, and the earlier one comes first.
scanned :
    map (λ (i : RecoveryItem). i.batch_id) (scan ("busy" ∷ []) sources) ≡ "early" ∷ "late" ∷ []
unfolding scan comes_first
scanned = refl

scan-IsCandidate_example :
    All
      (λ i. Any (λ s. IsOffered ("busy" ∷ []) s × (recovery_item s ≡ i)) sources)
      (scan ("busy" ∷ []) sources)
    × All
        (λ s.
          IsOffered ("busy" ∷ []) s → Any (λ i. i ≡ recovery_item s) (scan ("busy" ∷ []) sources))
        sources
    × InOrder (scan ("busy" ∷ []) sources)
scan-IsCandidate_example = scan-IsCandidate ("busy" ∷ []) sources
