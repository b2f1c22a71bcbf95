-- ===== src/Segmentation/Candidate.antt =====
-- core/policies/segmentation.py: the cost of a candidate cue, the words from one index to another.
-- The measures of a text and its line breaks are reached through the interface `Measures`. The
-- times of a word are natural numbers, the end not before the start, and `max(0, a - b)` is the
-- subtraction of such numbers.
use video_captioner_z.Base.{
  ℕ, suc, ◌+◌, ◌-◌, ◌*◌, max, min, String, Bool, true, false, ◌&&◌, Option, none, some, List, [],
  ◌∷◌, map, take, drop, get_elem?, any, leb, ltb, ◌==◌, if◌then◌else◌,
}
use video_captioner_z.Text.{codes, is_space}
use video_captioner_z.Json.{ℤ, pos, negsuc}
use video_captioner_z.Transcript.{WordToken}
use video_captioner_z.SegmentationPolicy.{SegmentationPolicyConfig}
use video_captioner_z.Segmentation.{is_hard_gap}

-- `join_token_texts`, `break_lines`, `measure_text`, and `protected_break_cost` with the protected
-- spans of the whole text.
pub record Measures : Type 0 where
  pub join_texts : List String → String
  pub lines : String → List String
  pub display_columns : String → ℕ
  pub reading_characters : String → ℕ
  pub protected_cost : ℕ → ℕ

abbrev pub max_end : List WordToken → ℕ
max_end [] = 0
max_end (w ∷ words) = max w.end_ms (max_end words)

abbrev pub min_start : WordToken → List WordToken → ℕ
min_start w [] = w.start_ms
min_start w (v ∷ words) = min w.start_ms (min_start v words)

-- `max(max(end_ms) - min(start_ms), 1)`
unfoldable pub duration_of : List WordToken → ℕ
duration_of [] = 1
duration_of (w ∷ words) = max (max_end (w ∷ words) - min_start w words) 1

-- the last character of `text.rstrip()`
last_visible : List ℕ → Option ℕ
last_visible [] = none
last_visible (c ∷ cs) = or_first (last_visible cs)
  where
    or_first : Option ℕ → Option ℕ
    or_first (some d) = some d
    or_first none = if is_space c then none else some c

ends_with : List ℕ → Option ℕ → Bool
ends_with marks none = false
ends_with marks (some c) = any (λ d. c == d) marks

abbrev sentence_end : List ℕ
sentence_end = 46 ∷ 33 ∷ 63 ∷ 0x2026 ∷ 0x3002 ∷ 0xff01 ∷ 0xff1f ∷ []

abbrev clause_end : List ℕ
clause_end = 44 ∷ 59 ∷ 58 ∷ 0x3001 ∷ 0xff0c ∷ 0xff1b ∷ 0xff1a ∷ []

-- `boundary_quality`
unfoldable pub boundary_quality : String → ℕ
unfolding last_visible ends_with
boundary_quality text =
    let last = last_visible (codes text) in
    if ends_with sentence_end last then 2 else if ends_with clause_end last then 1 else 0

abbrev sum_over : (String → ℕ) → List String → ℕ
sum_over f [] = 0
sum_over f (s ∷ rest) = f s + sum_over f rest

-- A number of the policy: none of a policy that passed its checks is negative.
abbrev amount : ℤ → ℕ
amount (pos n) = n
amount (negsuc n) = 0

-- `-n`
abbrev minus : ℕ → ℤ
minus n = if n == 0 then pos 0 else negsuc (n - 1)

-- `abs(a - b)`
abbrev distance : ℕ → ℕ → ℕ
distance a b = (a - b) + (b - a)

balance : (String → ℕ) → List String → ℕ
balance width (a ∷ b ∷ []) = distance (width a) (width b)
balance width lines = 0

module _ (measures : Measures) (config : SegmentationPolicyConfig) (words : List WordToken)
    (boundary_offsets : List ℕ) where
  -- `words[start:end]`
  abbrev pub selected : ℕ → ℕ → List WordToken
  selected start stop = take (stop - start) (drop start words)

  -- `boundary_offsets[end]`
  offset_at : Option ℕ → ℕ
  offset_at none = 0
  offset_at (some n) = n

  -- what the gap after the candidate adds: whether equal times are parted, and the two qualities
  equal_times : WordToken → WordToken → ℕ → ℕ
  equal_times before after columns =
      if (before.start_ms == after.start_ms)
        && (before.end_ms == after.end_ms)
        && leb columns (amount config.max_cue_width)
      then 1
      else 0

  record Break : Type 0 where
    equal_timestamp : ℕ
    protected : ℕ
    boundary : ℕ
    silence : ℕ

  break_between : Option WordToken → Option WordToken → ℕ → ℕ → Break
  unfolding equal_times boundary_quality is_hard_gap
  break_between (some before) (some after) offset columns = record {
    equal_timestamp = equal_times before after columns;
    protected = measures.protected_cost offset;
    boundary = boundary_quality before.text;
    silence = if is_hard_gap (amount config.preferred_gap_ms) before after then 1 else 0;
  }
  break_between _ _ offset columns = record {
    equal_timestamp = 0;
    protected = 0;
    boundary = 0;
    silence = 0;
  }

  -- `_evaluate_candidate`: the cost
  unfoldable pub candidate_cost : ℕ → ℕ → List ℤ
  unfolding duration_of offset_at break_between balance
  candidate_cost start stop =
      let text = measures.join_texts (map (λ w. w.text) (selected start stop)) in
      let duration = duration_of (selected start stop) in
      let lines = measures.lines text in
      let columns = measures.display_columns text in
      let line_over =
        sum_over (λ l. measures.display_columns l - (amount config.max_line_width)) lines in
      let duration_over = duration - (amount config.max_duration_ms) in
      let cps_over =
        measures.reading_characters text * 1000000 - (amount config.max_cps_milli) * duration in
      let width_over = (columns - (amount config.max_cue_width)) + line_over in
      let cut =
        break_between (get_elem? words (stop - 1)) (get_elem? words stop)
          (offset_at (get_elem? boundary_offsets stop)) columns in
      pos 0
      ∷ pos (
          width_over * (amount config.overflow_penalty)
          + duration_over * (amount config.overflow_penalty))
      ∷ pos cut.equal_timestamp
      ∷ pos (cut.protected * (amount config.protected_break_penalty))
      ∷ pos cps_over
      ∷ pos duration_over
      ∷ pos width_over
      ∷ minus (
          cut.boundary * (amount config.punctuation_bonus)
          + cut.silence * (amount config.silence_bonus))
      ∷ pos (distance duration (amount config.target_duration_ms))
      ∷ pos ((amount config.min_duration_ms) - duration)
      ∷ pos (balance measures.display_columns lines)
      ∷ pos 1
      ∷ []

  -- `_candidate_window_is_exceeded`
  unfoldable pub window_exceeded : ℕ → ℕ → Bool
  unfolding duration_of
  window_exceeded start stop =
      if leb stop (suc start)
      then false
      else if ltb (amount config.max_duration_ms) (duration_of (selected start stop))
      then true
      else ltb (amount config.max_cue_width)
          (measures.display_columns (measures.join_texts (map (λ w. w.text) (selected start stop))))
