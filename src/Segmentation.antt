-- ===== src/Segmentation.antt =====
-- core/policies/segmentation.py: the hard partitions of the words, at gaps of at least a given
-- length. The times of a word are natural numbers: a gap of at least `hard_gap_ms` between two
-- words is one that the end of the first and that length do not exceed the start of the second.
pub mod Partitions
pub mod Candidate
pub mod Solver
pub mod Better
pub mod Optimal
pub mod Spans
pub mod Timeline
use video_captioner_z.Base.{
  ℕ, ◌+◌, String, Bool, true, false, not, List, [], ◌∷◌, ◌++◌, map, distinct, leb, if◌then◌else◌,
  Result, ok, err, app_error, ◌>>=◌, ◌>>◌, raise_if,
}
use video_captioner_z.Transcript.{WordToken}

-- `words[index].start_ms - words[index - 1].end_ms >= hard_gap_ms`
unfoldable pub is_hard_gap : ℕ → WordToken → WordToken → Bool
is_hard_gap hard_gap_ms before after = leb (before.end_ms + hard_gap_ms) after.start_ms

module _ (hard_gap_ms : ℕ) where
  -- The loop of `_hard_partitions`: the slice `words[start:index]` so far, its last word, and the
  -- words from `index` on.
  unfoldable pub partition_from :
      List WordToken → WordToken → List WordToken → List (List WordToken)
  unfolding is_hard_gap
  partition_from slice last [] = slice ∷ []
  partition_from slice last (w ∷ words) =
      if is_hard_gap hard_gap_ms last w
      then slice ∷ partition_from (w ∷ []) w words
      else partition_from (slice ++ w ∷ []) w words

  -- `_hard_partitions`
  unfoldable pub hard_partitions : List WordToken → Result (List (List WordToken))
  unfolding partition_from
  hard_partitions [] = err (app_error "subtitle.segmentation_failed" "empty_words")
  hard_partitions (w ∷ words) = ok (partition_from (w ∷ []) w words)
