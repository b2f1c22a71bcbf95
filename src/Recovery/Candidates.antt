-- ===== src/Recovery/Candidates.antt =====
-- core/application/recovery.py: which batches a scan offers.
use video_captioner_z.Base.{
  ◌⊎◌, ap, ◌∙◌, Any, at_head, in_tail, Any-of_any, any-of_Any, ◌≢◌, contains, eq_iff, ◌≡◌, refl,
  sym, subst, String, Bool, true, false, List, [], ◌∷◌, All, All-weaken, arith, inl, inr,
  Bool-cases, if◌then◌else◌,
}
use video_captioner_z.Job.{JobState, JobProjection}
use video_captioner_z.Batch.{BatchState}
use video_captioner_z.Recovery.{
  RecoverySource, RecoveryItem, LeaseState, is_stale, is_unfinished, is_resumable, sort_items,
  is_offered, recovery_item, collect_items, scan,
}
use video_captioner_z.Recovery.Order.{InOrder, sort_items-InOrder, sort_items-All, sort_items-Any}

-- The lease of no live process.
pub data IsDead : LeaseState → Type 0 where
  no_lease : IsDead LeaseState.missing
  old_lease : IsDead LeaseState.stale
  bad_lease : IsDead LeaseState.invalid

-- A job that is still to be run, or to be run again.
pub data IsUnfinished : JobState → Type 0 where
  is_pending : IsUnfinished JobState.pending
  is_in_progress : IsUnfinished JobState.running
  is_interrupted : IsUnfinished JobState.interrupted

-- A batch may be resumed, unless it has succeeded or was cancelled.
pub record MayResume (s : BatchState) : Type 0 where
  pub open_batch : s ≢ BatchState.succeeded
  pub kept_batch : s ≢ BatchState.cancelled

is_stale-IsDead : (l : LeaseState) → is_stale l ≡ true → IsDead l
is_stale-IsDead LeaseState.missing h = no_lease
is_stale-IsDead LeaseState.active_local h = absurd (cc)
is_stale-IsDead LeaseState.active_remote h = absurd (cc)
is_stale-IsDead LeaseState.stale h = old_lease
is_stale-IsDead LeaseState.invalid h = bad_lease

IsDead-is_stale : (l : LeaseState) → IsDead l → is_stale l ≡ true
IsDead-is_stale _ no_lease = refl
IsDead-is_stale _ old_lease = refl
IsDead-is_stale _ bad_lease = refl

is_unfinished-IsUnfinished : (s : JobState) → is_unfinished s ≡ true → IsUnfinished s
is_unfinished-IsUnfinished JobState.pending h = is_pending
is_unfinished-IsUnfinished JobState.running h = is_in_progress
is_unfinished-IsUnfinished JobState.interrupted h = is_interrupted
is_unfinished-IsUnfinished JobState.failed h = absurd (cc)
is_unfinished-IsUnfinished JobState.cancelled h = absurd (cc)
is_unfinished-IsUnfinished JobState.succeeded h = absurd (cc)

IsUnfinished-is_unfinished : (s : JobState) → IsUnfinished s → is_unfinished s ≡ true
IsUnfinished-is_unfinished _ is_pending = refl
IsUnfinished-is_unfinished _ is_in_progress = refl
IsUnfinished-is_unfinished _ is_interrupted = refl

is_resumable-MayResume : (s : BatchState) → is_resumable s ≡ true → MayResume s
is_resumable-MayResume s h = record {
  open_batch = λ same. absurd (cc (sym (ap is_resumable same) ∙ h));
  kept_batch = λ same. absurd (cc (sym (ap is_resumable same) ∙ h));
}

MayResume-is_resumable : (s : BatchState) → MayResume s → is_resumable s ≡ true
MayResume-is_resumable BatchState.pending h = refl
MayResume-is_resumable BatchState.running h = refl
MayResume-is_resumable BatchState.interrupted h = refl
MayResume-is_resumable BatchState.failed h = refl
MayResume-is_resumable BatchState.cancelled h = absurd (h.kept_batch refl)
MayResume-is_resumable BatchState.succeeded h = absurd (h.open_batch refl)
MayResume-is_resumable BatchState.partial h = refl

other_ids : (ids : List String) (k : String) → contains ids k ≡ false → All (λ id. id ≢ k) ids
other_ids [] k h = tt
other_ids (x ∷ xs) k h =
    (λ same. absurd (ground (arith, h, eq_iff x k, same)), other_ids xs k (ground (arith, h)))

contains_none : (ids : List String) (k : String) → All (λ id. id ≢ k) ids → contains ids k ≡ false
contains_none [] k h = refl
contains_none (x ∷ xs) k h = ground (arith, h.0, eq_iff x k, contains_none xs k h.1)

module _ {C : Type 0} (scheduled : List String) where
  -- A batch that a restart may take up: not scheduled, under no live lease, with a job that is not
  -- at its end, and paused or in a state from which it may be resumed.
  pub record IsOffered (s : RecoverySource C) : Type 0 where
    pub unscheduled : All (λ id. id ≢ s.batch_id) scheduled
    pub dead : IsDead s.lease_state
    pub work : Any (λ (j : JobProjection C). IsUnfinished j.state) s.projection.jobs
    pub open_or_paused : (s.pause_requested ≡ true) ⊎ MayResume s.state

  is_offered-IsOffered : (s : RecoverySource C) → is_offered scheduled s ≡ true → IsOffered s
  unfolding is_offered
  is_offered-IsOffered s h = record {
    unscheduled = other_ids scheduled s.batch_id (ground (arith, h));
    dead = is_stale-IsDead s.lease_state (ground (arith, h));
    work =
        Any-of_any (λ (j : JobProjection C). IsUnfinished j.state) (λ j. is_unfinished j.state)
          s.projection.jobs (λ j. is_unfinished-IsUnfinished j.state) (ground (arith, h));
    open_or_paused = elim (Bool-cases s.pause_requested) [
      | inl e ↦ inl e
      | inr e ↦ inr (is_resumable-MayResume s.state (ground (arith, h, e)))
    ];
  }

  IsOffered-is_offered : (s : RecoverySource C) → IsOffered s → is_offered scheduled s ≡ true
  unfolding is_offered
  IsOffered-is_offered s h =
      let unscheduled = contains_none scheduled s.batch_id h.unscheduled in
      let dead = IsDead-is_stale s.lease_state h.dead in
      let work =
        any-of_Any (λ (j : JobProjection C). IsUnfinished j.state) (λ j. is_unfinished j.state)
          s.projection.jobs (λ j. IsUnfinished-is_unfinished j.state) h.work in
      elim h.open_or_paused [
        | inl e ↦ ground (arith, unscheduled, dead, work, e)
        | inr e ↦
            let open_batch = MayResume-is_resumable s.state e in
            ground (arith, unscheduled, dead, work, open_batch)
      ]

  -- the item is that of an offered source, and an offered source has its item
  abbrev IsItem : List (RecoverySource C) → RecoveryItem → Type 0
  IsItem sources i = Any (λ s. IsOffered s × (recovery_item s ≡ i)) sources

  abbrev HasItem : List RecoveryItem → RecoverySource C → Type 0
  HasItem items s = IsOffered s → Any (λ i. i ≡ recovery_item s) items

  collect_items-IsItem :
      (sources : List (RecoverySource C)) → All (IsItem sources) (collect_items scheduled sources)
  unfolding collect_items
  collect_items-IsItem [] = tt
  collect_items-IsItem (s ∷ sources) =
      let rest = collect_items scheduled sources in
      let after =
        All-weaken (IsItem sources) (IsItem (s ∷ sources)) rest (λ i h. in_tail h)
          (collect_items-IsItem sources) in
      let order = λ (offered : Bool). if offered then recovery_item s ∷ rest else rest in
      elim (Bool-cases (is_offered scheduled s)) [
        | inl e ↦
            subst (λ offered. All (IsItem (s ∷ sources)) (order offered)) (sym e)
              (at_head (is_offered-IsOffered s e, refl), after)
        | inr e ↦ subst (λ offered. All (IsItem (s ∷ sources)) (order offered)) (sym e) after
      ]

  collect_items-HasItem :
      (sources : List (RecoverySource C)) → All (HasItem (collect_items scheduled sources)) sources
  unfolding collect_items
  collect_items-HasItem [] = tt
  collect_items-HasItem (s ∷ sources) =
      let rest = collect_items scheduled sources in
      let order = λ (offered : Bool). if offered then recovery_item s ∷ rest else rest in
      elim (Bool-cases (is_offered scheduled s)) [
        | inl e ↦
            subst (λ offered. All (HasItem (order offered)) (s ∷ sources)) (sym e)
              (
                λ h. at_head refl,
                All-weaken (HasItem rest) (HasItem (recovery_item s ∷ rest)) sources
                    (λ t f h. in_tail (f h)) (collect_items-HasItem sources),
              )
        | inr e ↦
            subst (λ offered. All (HasItem (order offered)) (s ∷ sources)) (sym e)
              (λ h. absurd (cc (sym e ∙ IsOffered-is_offered s h)), collect_items-HasItem sources)
      ]

  -- The items of a scan are those of the sources that are offered: every item is the item of a
  -- source that is not scheduled, whose lease is missing, stale or invalid, which has a pending,
  -- running or interrupted job, and which is paused or neither succeeded nor cancelled; and every
  -- such source has its item in the scan. Each item was created before the next, or at the same
  -- time with an id that is not greater, texts compared by their code points.
  pub scan-IsCandidate :
      (sources : List (RecoverySource C))
      → All (λ i. Any (λ s. IsOffered s × (recovery_item s ≡ i)) sources) (scan scheduled sources)
        × All (λ s. IsOffered s → Any (λ i. i ≡ recovery_item s) (scan scheduled sources)) sources
        × InOrder (scan scheduled sources)
  unfolding scan
  scan-IsCandidate sources =
      let items = collect_items scheduled sources in
      (
        sort_items-All (IsItem sources) items (collect_items-IsItem sources),
        All-weaken (HasItem items) (HasItem (sort_items items)) sources
            (λ s f h. sort_items-Any (λ i. i ≡ recovery_item s) items (f h))
            (collect_items-HasItem sources),
        sort_items-InOrder items,
      )
