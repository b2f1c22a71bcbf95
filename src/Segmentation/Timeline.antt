-- ===== src/Segmentation/Timeline.antt =====
-- core/policies/segmentation.py: the times that `segment_transcript_dp` gives to the cues.
use video_captioner_z.Base.{
  ℕ, ◌+◌, ◌≤◌, ◌<◌, max, ◌≡◌, refl, List, [], ◌∷◌, All, All-weaken, Result, ok, err, app_error,
  ◌>>=◌, arith,
}
use video_captioner_z.Transcript.{WordToken}
use video_captioner_z.Segmentation.Candidate.{max_end, min_start}

pub record CueTimes : Type 0 where
  pub start_ms : ℕ
  pub end_ms : ℕ

-- the times of one cue, after the end of the cue before
abbrev cue_after : ℕ → WordToken → List WordToken → CueTimes
cue_after previous_end w words =
    let start = max (min_start w words) previous_end in
    record { start_ms = start; end_ms = max (max_end (w ∷ words)) (start + 1) }

-- The loop over the spans; `min` and `max` of no words raise `ValueError`.
unfoldable pub place_cues : ℕ → List (List WordToken) → Result (List CueTimes)
place_cues previous_end [] = ok []
place_cues previous_end ([] ∷ spans) = err (app_error "ValueError" "")
place_cues previous_end ((w ∷ words) ∷ spans) = do
  let cue = cue_after previous_end w words
  rest ← place_cues cue.end_ms spans
  ok (cue ∷ rest)

-- Each cue starts where the one before has ended, or later, lasts at least a millisecond, and ends
-- after each of its words.
pub data IsTimed : ℕ → List (List WordToken) → List CueTimes → Type 0 where
  no_cues : {previous_end : ℕ} → IsTimed previous_end [] []
  cue_placed :
      {previous_end : ℕ} {span : List WordToken} {spans : List (List WordToken)} {cue : CueTimes}
      {cues : List CueTimes}
      → previous_end ≤ cue.start_ms
      → cue.start_ms < cue.end_ms
      → All (λ w. w.end_ms ≤ cue.end_ms) span
      → IsTimed cue.end_ms spans cues
      → IsTimed previous_end (span ∷ spans) (cue ∷ cues)

abbrev pub HasWords : List WordToken → Type 0
HasWords [] = ⊥
HasWords (w ∷ words) = Unit {0}

max_end-bounds : (words : List WordToken) → All (λ w. w.end_ms ≤ max_end words) words
max_end-bounds [] = tt
max_end-bounds (w ∷ words) =
    (omega arith, All-weaken _ _ words (λ v h. omega arith) (max_end-bounds words))

-- Where every span has words, each is given a cue, and the cues do not overlap: each starts where the
-- one before has ended, or later, lasts at least a millisecond, and ends after each of its words.
pub place_cues-IsTimed :
    (previous_end : ℕ) (spans : List (List WordToken))
    → All HasWords spans
    → (cues : List CueTimes) × (place_cues previous_end spans ≡ ok cues)
      × IsTimed previous_end spans cues
unfolding place_cues ◌>>=◌
place_cues-IsTimed previous_end [] h = ([], refl, no_cues)
place_cues-IsTimed previous_end ([] ∷ spans) h = absurd h.0
place_cues-IsTimed previous_end ((w ∷ words) ∷ spans) h =
    let cue = cue_after previous_end w words in
    let (cues, placed, timed) = place_cues-IsTimed cue.end_ms spans h.1 in
    (
      cue ∷ cues,
      rw placed refl,
      cue_placed (omega arith) (omega arith)
          (All-weaken _ _ (w ∷ words) (λ v k. omega arith) (max_end-bounds (w ∷ words))) timed,
    )
