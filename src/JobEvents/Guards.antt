-- ===== src/JobEvents/Guards.antt =====
-- core/domain/journal.py: the guards of the stage events.
use video_captioner_z.Base.{
  ℕ, ◌<◌, ◌≡◌, inl, inr, refl, sym, ap, subst, ◌∙◌, true, false, not, some, List, [], ◌∷◌, any,
  arith, ok, All, Option-cases, bind_returned, Ensures, Ensures-raise_if, Ensures-weaken,
  Bool-cases,
}
use video_captioner_z.Json.{Fields}
use video_captioner_z.Stage.{
  StageName, StageProjection, running, stage_projection, is_committed, is_running, is_stage,
  dependencies, stage_plan_for,
}
use video_captioner_z.Job.{ConfigCodec, JobProjection, JobState, find_stage, stage_names}
use video_captioner_z.Job.Plan.{HasPlan, replace_job-Replaces}
use video_captioner_z.Event.{stage_started, required_int}
use video_captioner_z.StageEvents.{modify_stage, is_blocked, committed_at}
use video_captioner_z.StageEvents.Steps.{
  is_stage_self, StageStep, stay, start, modify_stage-Pairs, name-find_stage, stage_names-Steps,
}
use video_captioner_z.JobEvents.Steps.{stage_of-find_stage}
use video_captioner_z.JobEvents.{
  required_stage, stage_of, stage_start, stage_transition, apply_stage_event, apply_to_job,
}

-- The stages have one of the name, and it is committed.
abbrev pub CommittedIn : List StageProjection → StageName → Type 0
CommittedIn stages n =
    (t : StageProjection) × (find_stage n stages ≡ some t) × (is_committed t.state ≡ true)

committed_at-find_stage :
    (stages : List StageProjection) (n : StageName)
    → committed_at stages n ≡ true
    → CommittedIn stages n
unfolding committed_at
committed_at-find_stage stages n h = elim (Option-cases (find_stage n stages)) [
  | inl e ↦ absurd (ground arith)
  | inr (t, e) ↦ (t, e, ground arith)
]

unblocked :
    (stages : List StageProjection) (ns : List StageName)
    → any (λ d. not (committed_at stages d)) ns ≡ false
    → All (CommittedIn stages) ns
unblocked stages [] h = tt
unblocked stages (n ∷ ns) h =
    (committed_at-find_stage stages n (ground arith), unblocked stages ns (ground arith))

find_stage-modify_stage_self :
    (n : StageName) (f : StageProjection → StageProjection) (s : StageProjection)
    (stages : List StageProjection)
    → find_stage n stages ≡ some s
    → (f s).name ≡ n
    → find_stage n (modify_stage n f stages) ≡ some (f s)
unfolding find_stage modify_stage
find_stage-modify_stage_self n f s [] h e = absurd (cc)
find_stage-modify_stage_self n f s (x ∷ xs) h e = elim (Bool-cases (is_stage x.name n)) [
  | inl t ↦
      let same : x ≡ s = cc (rw t at h) in
      let named : (f x).name ≡ n = cc (ap f same, e) in
      let test : is_stage (f x).name n ≡ true =
        subst (λ m. is_stage m n ≡ true) (sym named) (is_stage_self n) in
      rw (t, test) (ap (λ y. some (f y)) same)
  | inr t ↦ rw (t, t) (find_stage-modify_stage_self n f s xs (rw t at h) e)
]

module _ {C : Type 0} (codec : ConfigCodec C) (j k : JobProjection C) where
  -- What an accepted `stage.started` shows: the attempt of the stage `n` is new, the stages it
  -- depends on are committed, and the stage runs under that attempt.
  pub record Starts (n : StageName) (attempt : ℕ) (s : StageProjection) : Type 0 where
    pub found : find_stage n j.stages ≡ some s
    pub higher : s.attempt < attempt
    pub idle : is_running s.state ≡ false
    pub prior :
        All (CommittedIn j.stages) (dependencies n (stage_plan_for (codec.profile j.config)))
    pub runs : find_stage n k.stages ≡ some (stage_projection n running attempt)
    pub job_runs : k.state ≡ JobState.running

module _ {C : Type 0} (codec : ConfigCodec C) (j : JobProjection C) (p : HasPlan codec j) where
  started_steps :
      (n : StageName) (attempt : ℕ) (s : StageProjection)
      → find_stage n j.stages ≡ some s
      → s.attempt < attempt
      → is_running s.state ≡ false
      → stage_names (modify_stage n (λ _. stage_projection n running attempt) j.stages)
        ≡ stage_names j.stages
  started_steps n attempt s f a i = stage_names-Steps (
      modify_stage-Pairs StageStep n (λ _. stage_projection n running attempt) s j.stages
        (λ x. stay) f
        (subst (λ m. StageStep s (stage_projection m running attempt))
          (name-find_stage n s j.stages f) (start attempt a i)))

  start-Starts :
      (n : StageName) (attempt : ℕ) (s : StageProjection)
      → find_stage n j.stages ≡ some s
      → Ensures (λ k. Starts codec j k n attempt s) (stage_start codec j n attempt s)
  unfolding stage_start is_blocked
  start-Starts n attempt s f =
      let f' = λ (_ : StageProjection). stage_projection n running attempt in
      Ensures-raise_if _ _ _ (λ a. Ensures-raise_if _ _ _ (λ b.
        Ensures-weaken _ _
          (λ k r. record {
            found = f;
            higher = ground arith;
            idle = ground arith;
            prior =
                subst (λ plan. All (CommittedIn j.stages) (dependencies n plan)) p
                  (unblocked j.stages (dependencies n (stage_names j.stages)) b);
            runs =
                ap (find_stage n) r.stages_given
                ∙ find_stage-modify_stage_self n f' s j.stages f refl;
            job_runs = r.state_given;
          })
          (replace_job-Replaces codec j JobState.running (modify_stage n f' j.stages) p
            (started_steps n attempt s f (ground arith) (ground arith)))))

  -- An accepted `stage.started` of a job with the stages of its plan names a stage of the job that
  -- is not running and an attempt above all its earlier ones; the stages that it depends on are
  -- committed; and after it the stage and the job run, the stage under the new attempt.
  pub stage_started-Starts :
      (payload : Fields) (k : JobProjection C)
      → apply_to_job codec j stage_started payload ≡ ok k
      → (n : StageName) × (attempt : ℕ) × (s : StageProjection) × (required_stage payload
            "stage_name"
          ≡ ok n)
        × (required_int payload "attempt" ≡ ok attempt)
        × Starts codec j k n attempt s
  unfolding apply_to_job apply_stage_event stage_transition
  stage_started-Starts payload k h =
      let (n, hn, h1) = bind_returned (required_stage payload "stage_name") _ h in
      let (attempt, ha, h2) = bind_returned (required_int payload "attempt") _ h1 in
      let (s, hs, h3) = bind_returned (stage_of j.stages n) _ h2 in
      (
        n,
        attempt,
        s,
        hn,
        ha,
        (start-Starts n attempt s ((stage_of-find_stage j.stages n).at s hs)).at k h3,
      )
