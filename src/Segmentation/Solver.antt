-- ===== src/Segmentation/Solver.antt =====
-- core/policies/segmentation.py: the dynamic program of `_solve_partition`, over the costs of the
-- candidates and the test that ends a window. The list `best` is a function on its indices. The
-- call of `progress` has no part in the result.
use video_captioner_z.Base.{
  ℕ, zero, suc, ◌+◌, ◌-◌, min, Bool, true, false, not, ◌&&◌, ◌||◌, Option, none, some, List, [],
  ◌∷◌, ◌++◌, take, drop, length, ltb, ◌==◌, if◌then◌else◌, Result, ok, err, app_error, ◌>>=◌,
}
use video_captioner_z.Json.{ℤ, pos}
use video_captioner_z.Integer.{less, add_all}
use video_captioner_z.Transcript.{WordToken}
use video_captioner_z.SegmentationPolicy.{SegmentationPolicyConfig}
use video_captioner_z.Segmentation.Candidate.{Measures, candidate_cost, window_exceeded}

-- `_Path`
pub record CuePath : Type 0 where
  pub cost : List ℤ
  pub ends : List ℕ

abbrev pub zero_cost : List ℤ
zero_cost =
    pos 0
    ∷ pos 0
    ∷ pos 0
    ∷ pos 0
    ∷ pos 0
    ∷ pos 0
    ∷ pos 0
    ∷ pos 0
    ∷ pos 0
    ∷ pos 0
    ∷ pos 0
    ∷ pos 0
    ∷ []

abbrev pub max_candidate_words : ℕ
max_candidate_words = 96

less_ends : List ℕ → List ℕ → Bool
less_ends [] [] = false
less_ends [] (n ∷ ns) = true
less_ends (m ∷ ms) [] = false
less_ends (m ∷ ms) (n ∷ ns) = ltb m n || (not (ltb n m) && less_ends ms ns)

-- `(proposed.cost, proposed.ends) < (current.cost, current.ends)`
unfoldable pub is_better : CuePath → CuePath → Bool
unfolding less_ends
is_better p q = less p.cost q.cost || (not (less q.cost p.cost) && less_ends p.ends q.ends)

abbrev pub Best : Type 0
Best = ℕ → Option CuePath

unfoldable pub better_of : CuePath → Option CuePath → CuePath
better_of p none = p
better_of p (some q) = if is_better p q then p else q

-- `best[end] = proposed`, if there is none or a worse one
unfoldable pub offer : CuePath → ℕ → Best → Best
offer p stop best i = if i == stop then some (better_of p (best i)) else best i

-- What the program uses of the candidates, from one index to another.
module _ (cost : ℕ → ℕ → List ℤ) (exceeded : ℕ → ℕ → Bool) where
  abbrev pub extended : CuePath → ℕ → ℕ → CuePath
  extended p start stop = record {
    cost = add_all p.cost (cost start stop);
    ends = p.ends ++ stop ∷ [];
  }

  -- the inner loop, with the rounds that are left
  unfoldable pub try_ends : CuePath → ℕ → ℕ → ℕ → Best → Best
  try_ends prior start stop zero best = best
  try_ends prior start stop (suc rounds) best =
      let offered = offer (extended prior start stop) stop best in
      let rest = try_ends prior start (suc stop) rounds offered in
      if exceeded start stop then offered else rest

  unfoldable pub try_start : ℕ → ℕ → Option CuePath → Best → Best
  try_start count start none best = best
  try_start count start (some prior) best =
      try_ends prior start (suc start) (min count (start + max_candidate_words) - start) best

  -- the outer loop
  unfoldable pub try_starts : ℕ → ℕ → ℕ → Best → Best
  unfolding try_start
  try_starts count start zero best = best
  try_starts count start (suc rounds) best =
      try_starts count (suc start) rounds (try_start count start (best start) best)

  abbrev pub at_origin : Best
  at_origin i = if i == 0 then some (record { cost = zero_cost; ends = [] }) else none

  unfoldable pub found : Option CuePath → Result CuePath
  found none = err (app_error "subtitle.segmentation_failed" "no_path")
  found (some p) = ok p

  -- the path that `_solve_partition` finds
  unfoldable pub solve : ℕ → Result CuePath
  unfolding found
  solve count = found (try_starts count 0 count at_origin count)

-- `spans`
unfoldable pub cut_spans : List WordToken → ℕ → List ℕ → List (List WordToken)
cut_spans words start [] = []
cut_spans words start (stop ∷ ends) =
    take (stop - start) (drop start words) ∷ cut_spans words stop ends

-- `_solve_partition`, the text and its boundaries known
unfoldable pub solve_partition :
    Measures → SegmentationPolicyConfig → List ℕ → List WordToken → Result (List (List WordToken))
unfolding candidate_cost window_exceeded
solve_partition measures config offsets words = do
  p ←
      solve (candidate_cost measures config words offsets)
        (window_exceeded measures config words offsets) (length words)
  ok (cut_spans words 0 p.ends)
