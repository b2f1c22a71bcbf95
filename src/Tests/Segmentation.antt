-- ===== src/Tests/Segmentation.antt =====
-- The segmentation of two words.
use video_captioner_z.Base.{ℕ, ◌≡◌, refl, Bool, false, ◌>>=◌, String, List, [], ◌∷◌, All, ok}
use video_captioner_z.Json.{ℤ}
use video_captioner_z.Integer.{less}
use video_captioner_z.Transcript.{WordToken}
use video_captioner_z.SegmentationPolicy.{default_policy}
use video_captioner_z.Segmentation.Candidate.{Measures, candidate_cost, window_exceeded}
use video_captioner_z.Segmentation.Solver.{CuePath, solve, solve_partition}
use video_captioner_z.Segmentation.Optimal.{Cover, solve_optimal}
use video_captioner_z.Segmentation.Partitions.{concat}
use video_captioner_z.Segmentation.Spans.{solve_partition_words}
use video_captioner_z.Segmentation.Timeline.{
  HasWords, CueTimes, place_cues, IsTimed, place_cues-IsTimed,
}
use video_captioner_z.Tests.Transcript.{word}

first_text : List String → String
first_text [] = ""
first_text (s ∷ texts) = s

-- Every text is on one line, of ten columns.
abbrev sample_measures : Measures
sample_measures = record {
  join_texts = first_text;
  lines = λ s. s ∷ [];
  display_columns = λ s. 10;
  reading_characters = λ s. 10;
  protected_cost = λ n. 0;
}

abbrev two_words : List WordToken
two_words = word "w1" 0 10 ∷ word "w2" 10 20 ∷ []

abbrev offsets : List ℕ
offsets = 0 ∷ 4 ∷ 8 ∷ []

abbrev cost : ℕ → ℕ → List ℤ
cost = candidate_cost sample_measures default_policy two_words offsets

abbrev exceeded : ℕ → ℕ → Bool
exceeded = window_exceeded sample_measures default_policy two_words offsets

-- The two words make one cue.
one_cue : solve_partition sample_measures default_policy offsets two_words ≡ ok (two_words ∷ [])
unfolding solve_partition ◌>>=◌ solve video_captioner_z.Segmentation.Solver.try_starts
    video_captioner_z.Segmentation.Solver.try_ends video_captioner_z.Segmentation.Solver.offer
    video_captioner_z.Segmentation.Solver.cut_spans video_captioner_z.Segmentation.Solver.better_of
    video_captioner_z.Segmentation.Solver.is_better less video_captioner_z.Integer.add_all
    video_captioner_z.Integer.ltb_ℤ video_captioner_z.Integer.◌+ℤ◌
one_cue = refl

solve_optimal_example :
    (p : CuePath) × (solve cost exceeded 2 ≡ ok p)
    × Cover cost exceeded 2 p.ends 2 p.cost
    × ((ends : List ℕ) (total : List ℤ)
        → Cover cost exceeded 2 ends 2 total
        → less total p.cost ≡ false)
solve_optimal_example = solve_optimal cost exceeded 2

solve_partition_words_example :
    (spans : List (List WordToken)) × (solve_partition sample_measures default_policy offsets
        two_words
      ≡ ok spans)
    × (concat spans ≡ two_words)
    × All HasWords spans
solve_partition_words_example =
    solve_partition_words sample_measures default_policy offsets two_words

place_cues-IsTimed_example :
    (cues : List CueTimes) × (place_cues 0 (two_words ∷ []) ≡ ok cues)
    × IsTimed 0 (two_words ∷ []) cues
place_cues-IsTimed_example = place_cues-IsTimed 0 (two_words ∷ []) (tt, tt)
