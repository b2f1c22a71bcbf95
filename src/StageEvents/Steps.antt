-- ===== src/StageEvents/Steps.antt =====
-- The abstract machine of one stage, and the stage lists that the journal's events make, read as
-- steps of it.
use video_captioner_z.Base.{
  ℕ, ◌≤◌, ◌<◌, String, ◌≡◌, refl, sym, subst, ap, true, false, some, List, [], ◌∷◌, ◌⊎◌, inl, inr,
  arith, Pairs, done, next, Pairs-refl, Pairs-weaken, Bool-cases, ◌∙◌,
}
use video_captioner_z.Artifact.{ArtifactRef}
use video_captioner_z.Stage.{
  StageName, StageState, StageProjection, running, committed, invalidated, pending, interrupted,
  failed, cancelled, stage_projection, is_committed, is_running, is_stage, stage_suffix,
}
use video_captioner_z.Job.{stage_names, find_stage}
use video_captioner_z.StageEvents.{
  modify_stage, modify_stages, invalidate, invalidate_suffix, reset, reset_suffix, is_cache_key,
  is_nil,
}

pub data IsClosed : StageState → Type 0 where
  interrupted_closed : IsClosed interrupted
  failed_closed : IsClosed failed
  cancelled_closed : IsClosed cancelled

-- One step of a stage: an attempt starts under a higher number, a running attempt is closed or
-- committed, a commit is invalidated, or the stage is reset.
pub data StageStep (s : StageProjection) : StageProjection → Type 0 where
  stay : StageStep s s
  start :
      (attempt : ℕ)
      → s.attempt < attempt
      → is_running s.state ≡ false
      → StageStep s (stage_projection s.name running attempt)
  close :
      (state : StageState)
      → is_running s.state ≡ true
      → IsClosed state
      → StageStep s (record s { state = state })
  commit :
      (key : String) (artifacts : List ArtifactRef)
      → is_running s.state ≡ true
      → is_cache_key key ≡ true
      → is_nil artifacts ≡ false
      → StageStep s (record s { state = committed; cache_key = some key; artifacts = artifacts })
  invalidated_step : is_committed s.state ≡ true → StageStep s (record s { state = invalidated })
  reset_step : StageStep s (stage_projection s.name pending s.attempt)

-- A step keeps the stage's name and never lowers its attempt.
pub StageStep-attempt :
    {s t : StageProjection} → StageStep s t → (t.name ≡ s.name) × (s.attempt ≤ t.attempt)
StageStep-attempt stay = (refl, omega arith)
StageStep-attempt (start attempt h r) = (refl, omega arith)
StageStep-attempt (close state r c) = (refl, omega arith)
StageStep-attempt (commit key artifacts r k a) = (refl, omega arith)
StageStep-attempt (invalidated_step c) = (refl, omega arith)
StageStep-attempt reset_step = (refl, omega arith)

pub is_stage_self : (n : StageName) → is_stage n n ≡ true
is_stage_self n = ground arith

-- Only the stage that was found is changed.
pub modify_stage-Pairs {μ} :
    (R : StageProjection → StageProjection → Type μ) (n : StageName)
    (f : StageProjection → StageProjection) (s : StageProjection) (stages : List StageProjection)
    → ((x : StageProjection) → R x x)
    → find_stage n stages ≡ some s
    → R s (f s)
    → Pairs R stages (modify_stage n f stages)
unfolding find_stage modify_stage
modify_stage-Pairs R n f s [] r h k = done
modify_stage-Pairs R n f s (x ∷ xs) r h k = elim (Bool-cases (is_stage x.name n)) [
  | inl e ↦ rw e (
      next (subst (λ (y : StageProjection). R y (f y)) (sym (cc (rw e at h))) k)
        (Pairs-refl R r xs))
  | inr e ↦ rw e (next (r x) (modify_stage-Pairs R n f s xs r (rw e at h) k))
]

pub name-find_stage :
    (n : StageName) (s : StageProjection) (stages : List StageProjection)
    → find_stage n stages ≡ some s
    → s.name ≡ n
unfolding find_stage
name-find_stage n s [] h = absurd (cc)
name-find_stage n s (x ∷ xs) h = ground (arith, name-find_stage n s xs)

module _ {μ} (R : StageProjection → StageProjection → Type μ)
    (f : StageProjection → StageProjection)
    (keep : (x y : StageProjection) → R x y → R x (f y)) where
  modify_stage-keeps :
      (n : StageName) {xs ys : List StageProjection}
      → Pairs R xs ys
      → Pairs R xs (modify_stage n f ys)
  unfolding modify_stage
  modify_stage-keeps n done = done
  modify_stage-keeps n (next {x = x} {y = y} h t) = elim (Bool-cases (is_stage y.name n)) [
    | inl e ↦ rw e (next (keep x y h) t)
    | inr e ↦ rw e (next h (modify_stage-keeps n t))
  ]

  -- A relation that `f` keeps on the right is kept by the loop over a suffix.
  pub modify_stages-keeps :
      (ns : List StageName) {xs ys : List StageProjection}
      → Pairs R xs ys
      → Pairs R xs (modify_stages f ns ys)
  unfolding modify_stages
  modify_stages-keeps [] h = h
  modify_stages-keeps (n ∷ ns) h = modify_stages-keeps ns (modify_stage-keeps n h)

-- The stage is unchanged, or changed by `f` once.
abbrev OnceBy : (StageProjection → StageProjection) → StageProjection → StageProjection → Type 0
OnceBy f x y = (y ≡ x) ⊎ (y ≡ f x)

OnceBy-keeps :
    (f : StageProjection → StageProjection)
    → ((x : StageProjection) → f (f x) ≡ f x)
    → (x y : StageProjection) → OnceBy f x y
    → OnceBy f x (f y)
OnceBy-keeps f idem x y (inl e) = inr (ap f e)
OnceBy-keeps f idem x y (inr e) = inr (ap f e ∙ idem x)

OnceBy-StageStep :
    (f : StageProjection → StageProjection)
    → ((x : StageProjection) → StageStep x (f x))
    → (x y : StageProjection) → OnceBy f x y
    → StageStep x y
OnceBy-StageStep f step x y (inl e) = subst (StageStep x) (sym e) stay
OnceBy-StageStep f step x y (inr e) = subst (StageStep x) (sym e) (step x)

once_suffix :
    (f : StageProjection → StageProjection)
    → ((x : StageProjection) → f (f x) ≡ f x)
    → ((x : StageProjection) → StageStep x (f x))
    → (ns : List StageName) (xs : List StageProjection) → Pairs StageStep xs (modify_stages f ns xs)
once_suffix f idem step ns xs = Pairs-weaken (OnceBy f) StageStep (OnceBy-StageStep f step) (
    modify_stages-keeps (OnceBy f) f (OnceBy-keeps f idem) ns
      (Pairs-refl (OnceBy f) (λ x. inl refl) xs))

invalidate_idem : (s : StageProjection) → invalidate (invalidate s) ≡ invalidate s
invalidate_idem s = ground arith

invalidate-StageStep : (s : StageProjection) → StageStep s (invalidate s)
invalidate-StageStep s = elim (Bool-cases (is_committed s.state)) [
  | inl e ↦ rw e (invalidated_step e)
  | inr e ↦ rw e stay
]

-- An invalidated suffix is a step of each stage.
pub invalidate_suffix-Steps :
    (n : StageName) (stages : List StageProjection)
    → Pairs StageStep stages (invalidate_suffix n stages)
unfolding invalidate_suffix
invalidate_suffix-Steps n stages =
    once_suffix invalidate invalidate_idem invalidate-StageStep
      (stage_suffix n (stage_names stages)) stages

-- So is a suffix that is reset for a retry.
pub reset_suffix-Steps :
    (n : StageName) (stages : List StageProjection) → Pairs StageStep stages (reset_suffix n stages)
unfolding reset_suffix
reset_suffix-Steps n stages =
    once_suffix reset (λ x. refl) (λ x. reset_step) (stage_suffix n (stage_names stages)) stages

-- Steps keep the names of the stages, in their order.
pub stage_names-Steps :
    {xs ys : List StageProjection} → Pairs StageStep xs ys → stage_names ys ≡ stage_names xs
stage_names-Steps done = refl
stage_names-Steps (next h t) = cc ((StageStep-attempt h).0, stage_names-Steps t)
