-- ===== src/Recovery.antt =====
-- core/application/recovery.py: which batches are offered for recovery after a restart.
-- What the gateway reads, and which batches the coordinator has scheduled, are given.
pub mod Order
pub mod Candidates
use video_captioner_z.Base.{
  ℕ, String, Bool, true, false, not, ◌&&◌, ◌||◌, Option, none, some, List, [], ◌∷◌, any, contains,
  ltb, ◌==◌, if◌then◌else◌,
}
use video_captioner_z.Text.{codes}
use video_captioner_z.Job.{JobState, JobProjection}
use video_captioner_z.Batch.{BatchState, BatchProjection}

-- the states of a batch's lease, those of `LeaseExecutionState`
pub data LeaseState : Type 0 where
  missing active_local active_remote stale invalid : LeaseState

-- one of `_STALE_LEASE_STATES`
abbrev pub is_stale : LeaseState → Bool
is_stale LeaseState.missing = true
is_stale LeaseState.active_local = false
is_stale LeaseState.active_remote = false
is_stale LeaseState.stale = true
is_stale LeaseState.invalid = true

pub record RecoverySource (C : Type 0) : Type 0 where
  pub batch_id : String
  pub created_at_utc : String
  pub state : BatchState
  pub job_count : ℕ
  pub pause_requested : Bool
  pub missing_input_paths : List String
  pub last_event_seq : ℕ
  pub lease_state : LeaseState
  pub projection : BatchProjection C

pub record RecoveryItem : Type 0 where
  pub batch_id : String
  pub created_at_utc : String
  pub state : BatchState
  pub job_count : ℕ
  pub pause_requested : Bool
  pub missing_input_paths : List String
  pub last_event_seq : ℕ
  pub blocked_code : Option String

-- `state not in _TERMINAL_JOB_STATES`
abbrev pub is_unfinished : JobState → Bool
is_unfinished JobState.succeeded = false
is_unfinished JobState.failed = false
is_unfinished JobState.cancelled = false
is_unfinished _ = true

-- the states of a batch that may be resumed
abbrev pub is_resumable : BatchState → Bool
is_resumable BatchState.succeeded = false
is_resumable BatchState.cancelled = false
is_resumable _ = true

-- `a <= b` on texts, by their code points
unfoldable pub text_le : List ℕ → List ℕ → Bool
text_le [] ys = true
text_le (x ∷ xs) [] = false
text_le (x ∷ xs) (y ∷ ys) = ltb x y || (x == y && text_le xs ys)

unfoldable pub same_text : List ℕ → List ℕ → Bool
same_text [] [] = true
same_text [] (y ∷ ys) = false
same_text (x ∷ xs) [] = false
same_text (x ∷ xs) (y ∷ ys) = x == y && same_text xs ys

-- the order of the keys `(created_at_utc, batch_id)`
unfoldable pub comes_first : RecoveryItem → RecoveryItem → Bool
unfolding text_le same_text
comes_first a b =
    if same_text (codes a.created_at_utc) (codes b.created_at_utc)
    then text_le (codes a.batch_id) (codes b.batch_id)
    else text_le (codes a.created_at_utc) (codes b.created_at_utc)

-- `items.sort(key=...)`, which is stable
unfoldable pub insert_item : RecoveryItem → List RecoveryItem → List RecoveryItem
insert_item a [] = a ∷ []
insert_item a (b ∷ items) = if comes_first a b then a ∷ b ∷ items else b ∷ insert_item a items

unfoldable pub sort_items : List RecoveryItem → List RecoveryItem
unfolding insert_item
sort_items [] = []
sort_items (a ∷ items) = insert_item a (sort_items items)

blocked_by : List String → Option String
blocked_by [] = none
blocked_by (path ∷ paths) = some "recovery.input_missing"

module _ {C : Type 0} where
  -- the tests of the loop of `scan`
  unfoldable pub is_offered : List String → RecoverySource C → Bool
  is_offered scheduled s =
      not (contains scheduled s.batch_id)
      && is_stale s.lease_state
      && any (λ (j : JobProjection C). is_unfinished j.state) s.projection.jobs
      && (s.pause_requested || is_resumable s.state)

  unfoldable pub recovery_item : RecoverySource C → RecoveryItem
  unfolding blocked_by
  recovery_item s = record {
    batch_id = s.batch_id;
    created_at_utc = s.created_at_utc;
    state = s.state;
    job_count = s.job_count;
    pause_requested = s.pause_requested;
    missing_input_paths = s.missing_input_paths;
    last_event_seq = s.last_event_seq;
    blocked_code = blocked_by s.missing_input_paths;
  }

  -- the loop of `scan`
  unfoldable pub collect_items : List String → List (RecoverySource C) → List RecoveryItem
  unfolding is_offered recovery_item
  collect_items scheduled [] = []
  collect_items scheduled (s ∷ sources) =
      if is_offered scheduled s
      then recovery_item s ∷ collect_items scheduled sources
      else collect_items scheduled sources

  -- the items of `RecoveryService.scan`
  unfoldable pub scan : List String → List (RecoverySource C) → List RecoveryItem
  unfolding collect_items sort_items
  scan scheduled sources = sort_items (collect_items scheduled sources)
