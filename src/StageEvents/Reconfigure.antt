-- ===== src/StageEvents/Reconfigure.antt =====
-- core/domain/journal.py: what `_reconfigure_stages` keeps of a job's stages.
use video_captioner_z.Base.{
  subst, ℕ, suc, ◌≡◌, refl, Option, none, some, List, [], ◌∷◌, map, arith, All, Bool-cases, inl,
  inr, All-map,
}
use video_captioner_z.Stage.{StageName, StageProjection, pending, stage_projection, is_stage}
use video_captioner_z.Job.{stage_names, find_stage, or_fresh}
use video_captioner_z.StageEvents.{reconfigure_stage, reconfigure_from, reconfigure_stages}
use video_captioner_z.StageEvents.Steps.{name-find_stage}
use video_captioner_z.StageEvents.Terminal.{IsSound}

All-find_stage :
    (P : StageProjection → Type 0) (n : StageName) (s : StageProjection)
    (stages : List StageProjection)
    → All P stages
    → find_stage n stages ≡ some s
    → P s
unfolding find_stage
All-find_stage P n s [] h e = absurd (cc)
All-find_stage P n s (x ∷ xs) h e = elim (Bool-cases (is_stage x.name n)) [
  | inl t ↦ subst P (cc (rw t at e)) h.0
  | inr t ↦ All-find_stage P n s xs h.1 (rw t at e)
]

fresh-IsSound : (n : StageName) (a : ℕ) → IsSound (stage_projection n pending a)
fresh-IsSound n a = ground arith

module _ (boundary : Option ℕ) (previous : List StageProjection) where
  stage-IsSound :
      (i : ℕ) (n : StageName) (o : Option StageProjection)
      → ((s : StageProjection) → o ≡ some s → IsSound s)
      → IsSound (reconfigure_stage boundary i n o)
  unfolding reconfigure_stage
  stage-IsSound i n none h = fresh-IsSound n 0
  stage-IsSound i n (some s) h = ground (arith, h s refl)

  from-IsSound :
      (i : ℕ) (plan : List StageName)
      → All IsSound previous
      → All IsSound (reconfigure_from boundary i plan previous)
  unfolding reconfigure_from
  from-IsSound i [] h = tt
  from-IsSound i (n ∷ plan) h = (
    stage-IsSound i n (find_stage n previous) (λ s e. All-find_stage IsSound n s previous h e),
    from-IsSound (suc i) plan h,
  )

  name-reconfigure_stage :
      (i : ℕ) (n : StageName) (o : Option StageProjection)
      → ((s : StageProjection) → o ≡ some s → s.name ≡ n)
      → (reconfigure_stage boundary i n o).name ≡ n
  unfolding reconfigure_stage
  name-reconfigure_stage i n none h = refl
  name-reconfigure_stage i n (some s) h = ground (arith, h s refl)

  names-reconfigure_from :
      (i : ℕ) (plan : List StageName)
      → stage_names (reconfigure_from boundary i plan previous) ≡ plan
  unfolding reconfigure_from
  names-reconfigure_from i [] = refl
  names-reconfigure_from i (n ∷ plan) = cc (
    name-reconfigure_stage i n (find_stage n previous) (λ s e. name-find_stage n s previous e),
    names-reconfigure_from (suc i) plan,
  )

-- The new stages are named as the plan, in its order.
pub names-reconfigure_stages :
    (plan : List StageName) (earliest : Option StageName) (previous : List StageProjection)
    → stage_names (reconfigure_stages plan earliest previous) ≡ plan
unfolding reconfigure_stages
names-reconfigure_stages plan none previous = names-reconfigure_from none previous 0 plan
names-reconfigure_stages plan (some e) previous = names-reconfigure_from (some _) previous 0 plan

-- A stage that is committed after it was so before, with the same key and artifacts.
pub reconfigure_stages-IsSound :
    (plan : List StageName) (earliest : Option StageName) (previous : List StageProjection)
    → All IsSound previous
    → All IsSound (reconfigure_stages plan earliest previous)
unfolding reconfigure_stages
reconfigure_stages-IsSound plan none previous h = from-IsSound none previous 0 plan h
reconfigure_stages-IsSound plan (some e) previous h = from-IsSound (some _) previous 0 plan h

fresh-All-IsSound :
    (plan : List StageName) → All IsSound (map (λ n. stage_projection n pending 0) plan)
fresh-All-IsSound plan =
    All-map IsSound (λ n. stage_projection n pending 0) plan (λ n. fresh-IsSound n 0)

pub or_fresh-IsSound :
    (given : List StageProjection) (plan : List StageName)
    → All IsSound given
    → All IsSound (or_fresh given plan)
unfolding or_fresh
or_fresh-IsSound [] plan h = fresh-All-IsSound plan
or_fresh-IsSound (s ∷ ss) plan h = h
