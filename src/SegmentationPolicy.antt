-- ===== src/SegmentationPolicy.antt =====
-- core/policies/segmentation_config.py: the integer knobs of the subtitle policies, their checks,
-- and their reading from a mapping and printing to one.
pub mod Mapping
use video_captioner_z.Base.{
  ℕ, suc, String, Bool, true, false, not, ◌&&◌, ◌||◌, Option, none, some, List, [], ◌∷◌, any,
  same_set, min, leb, ◌==◌, if◌then◌else◌, Result, ok, err, app_error, ◌>>=◌, ◌>>◌, raise_if,
}
use video_captioner_z.Json.{ℤ, pos, negsuc, Value, int, Fields, field, end, get, keys}

pub record SegmentationPolicyConfig : Type 0 where
  pub schema_version : ℤ
  pub min_duration_ms : ℤ
  pub target_duration_ms : ℤ
  pub max_duration_ms : ℤ
  pub preferred_gap_ms : ℤ
  pub hard_gap_ms : ℤ
  pub target_cps_milli : ℤ
  pub max_cps_milli : ℤ
  pub max_lines : ℤ
  pub max_line_width : ℤ
  pub max_cue_width : ℤ
  pub punctuation_bonus : ℤ
  pub silence_bonus : ℤ
  pub protected_break_penalty : ℤ
  pub overflow_penalty : ℤ

-- the defaults of the fields
abbrev pub default_policy : SegmentationPolicyConfig
default_policy = record {
  schema_version = pos 1;
  min_duration_ms = pos 800;
  target_duration_ms = pos 3500;
  max_duration_ms = pos 7000;
  preferred_gap_ms = pos 300;
  hard_gap_ms = pos 700;
  target_cps_milli = pos 17000;
  max_cps_milli = pos 20000;
  max_lines = pos 2;
  max_line_width = pos 42;
  max_cue_width = pos 84;
  punctuation_bonus = pos 800;
  silence_bonus = pos 1000;
  protected_break_penalty = pos 10000;
  overflow_penalty = pos 1000000;
}

-- `a > b`
unfoldable pub exceeds : ℤ → ℤ → Bool
exceeds (pos a) (pos b) = not (leb a b)
exceeds (pos a) (negsuc b) = true
exceeds (negsuc a) (pos b) = false
exceeds (negsuc a) (negsuc b) = not (leb b a)

-- `a != 1`
unfoldable pub is_not_one : ℤ → Bool
is_not_one (pos a) = not (a == 1)
is_not_one (negsuc a) = true

-- the conditions of `__post_init__` under which a `ValueError` is raised, in their order
unfoldable pub is_bad_policy : SegmentationPolicyConfig → Bool
unfolding exceeds is_not_one
is_bad_policy c =
    is_not_one c.schema_version
    || any (λ value. not (exceeds value (pos 0)))
        (c.min_duration_ms ∷ c.target_duration_ms ∷ c.max_duration_ms ∷ c.max_line_width
          ∷ c.max_cue_width ∷ c.target_cps_milli ∷ c.max_cps_milli ∷ [])
    || any (λ value. exceeds (pos 0) value)
        (c.preferred_gap_ms ∷ c.hard_gap_ms ∷ c.punctuation_bonus ∷ c.silence_bonus
          ∷ c.protected_break_penalty ∷ c.overflow_penalty ∷ [])
    || exceeds (pos 1) c.max_lines
    || exceeds c.max_lines (pos 2)
    || exceeds c.min_duration_ms c.max_duration_ms
    || exceeds c.target_duration_ms c.max_duration_ms
    || exceeds c.preferred_gap_ms c.hard_gap_ms
    || exceeds c.target_cps_milli c.max_cps_milli
    || exceeds c.max_line_width c.max_cue_width

-- `SegmentationPolicyConfig(...)` with its checks
unfoldable pub policy_config : SegmentationPolicyConfig → Result SegmentationPolicyConfig
unfolding is_bad_policy
policy_config c = do raise_if (is_bad_policy c) (app_error "ValueError" ""); ok c

abbrev pub policy_fields : List String
policy_fields =
    "schema_version" ∷ "min_duration_ms" ∷ "target_duration_ms" ∷ "max_duration_ms"
    ∷ "preferred_gap_ms" ∷ "hard_gap_ms" ∷ "target_cps_milli" ∷ "max_cps_milli" ∷ "max_lines"
    ∷ "max_line_width" ∷ "max_cue_width" ∷ "punctuation_bonus" ∷ "silence_bonus"
    ∷ "protected_break_penalty" ∷ "overflow_penalty" ∷ []

abbrev pub legacy_fields : List String
legacy_fields = "max_duration_ms" ∷ "max_text_units" ∷ "hard_gap_ms" ∷ []

pub mapping_int_of : Value → Result ℤ
mapping_int_of (int n) = ok n
mapping_int_of _ = err (app_error "TypeError" "")

-- `_mapping_int`
unfoldable pub mapping_int : Fields → String → Result ℤ
unfolding get mapping_int_of
mapping_int values key = mapping_int_of (get values key)

pub natural_of : Value → Result ℕ
natural_of (int (pos n)) = ok n
natural_of _ = err (app_error "job.config_invalid" "segmentation")

-- `_nonnegative_int`
unfoldable pub nonnegative_int : Fields → String → Result ℕ
unfolding get natural_of
nonnegative_int values key = natural_of (get values key)

-- `_positive_int`
unfoldable pub positive_int : Fields → String → Result ℕ
unfolding get natural_of
positive_int values key = do
  n ← natural_of (get values key)
  raise_if (n == 0) (app_error "job.config_invalid" "segmentation")
  ok n

-- the block under `try`
unfoldable pub read_policy : Fields → Result SegmentationPolicyConfig
unfolding mapping_int policy_config
read_policy values = do
  version ← mapping_int values "schema_version"
  min_duration ← mapping_int values "min_duration_ms"
  target_duration ← mapping_int values "target_duration_ms"
  max_duration ← mapping_int values "max_duration_ms"
  preferred ← mapping_int values "preferred_gap_ms"
  hard ← mapping_int values "hard_gap_ms"
  target_cps ← mapping_int values "target_cps_milli"
  max_cps ← mapping_int values "max_cps_milli"
  lines ← mapping_int values "max_lines"
  line_width ← mapping_int values "max_line_width"
  cue_width ← mapping_int values "max_cue_width"
  punctuation ← mapping_int values "punctuation_bonus"
  silence ← mapping_int values "silence_bonus"
  protected ← mapping_int values "protected_break_penalty"
  overflow ← mapping_int values "overflow_penalty"
  policy_config (record {
    schema_version = version;
    min_duration_ms = min_duration;
    target_duration_ms = target_duration;
    max_duration_ms = max_duration;
    preferred_gap_ms = preferred;
    hard_gap_ms = hard;
    target_cps_milli = target_cps;
    max_cps_milli = max_cps;
    max_lines = lines;
    max_line_width = line_width;
    max_cue_width = cue_width;
    punctuation_bonus = punctuation;
    silence_bonus = silence;
    protected_break_penalty = protected;
    overflow_penalty = overflow;
  })

-- `except (TypeError, ValueError)`: the block raises no other error
pub config_invalid : Result SegmentationPolicyConfig → Result SegmentationPolicyConfig
config_invalid (ok c) = ok c
config_invalid (err e) = err (app_error "job.config_invalid" "segmentation")

-- the policy that three legacy values stand for
abbrev pub legacy_policy : ℕ → ℕ → ℕ → SegmentationPolicyConfig
legacy_policy max_duration max_text_units hard_gap = record default_policy {
  min_duration_ms = pos (min 800 max_duration);
  max_duration_ms = pos max_duration;
  target_duration_ms = pos (min 3500 max_duration);
  preferred_gap_ms = pos (min 300 hard_gap);
  hard_gap_ms = pos hard_gap;
  max_line_width = pos (min 42 max_text_units);
  max_cue_width = pos max_text_units;
}

unfoldable pub read_legacy : Fields → Result SegmentationPolicyConfig
unfolding positive_int nonnegative_int policy_config
read_legacy values = do
  max_duration ← positive_int values "max_duration_ms"
  max_text_units ← positive_int values "max_text_units"
  hard_gap ← nonnegative_int values "hard_gap_ms"
  policy_config (legacy_policy max_duration max_text_units hard_gap)

-- `from_mapping`
unfoldable pub from_mapping : Fields → Result SegmentationPolicyConfig
unfolding keys read_legacy read_policy config_invalid
from_mapping values = if same_set (keys values) legacy_fields then read_legacy values else (do
  raise_if (not (same_set (keys values) policy_fields))
      (app_error "job.config_invalid" "segmentation")
  config_invalid (read_policy values))

-- `to_mapping`
unfoldable pub to_mapping : SegmentationPolicyConfig → Fields
to_mapping c = field "schema_version" (int c.schema_version) (
    field "min_duration_ms" (int c.min_duration_ms) (
      field "target_duration_ms" (int c.target_duration_ms) (
        field "max_duration_ms" (int c.max_duration_ms) (
          field "preferred_gap_ms" (int c.preferred_gap_ms) (
            field "hard_gap_ms" (int c.hard_gap_ms) (
              field "target_cps_milli" (int c.target_cps_milli) (
                field "max_cps_milli" (int c.max_cps_milli) (
                  field "max_lines" (int c.max_lines) (
                    field "max_line_width" (int c.max_line_width) (
                      field "max_cue_width" (int c.max_cue_width) (
                        field "punctuation_bonus" (int c.punctuation_bonus) (
                          field "silence_bonus" (int c.silence_bonus) (
                            field "protected_break_penalty" (int c.protected_break_penalty)
                              (field "overflow_penalty" (int c.overflow_penalty) end))))))))))))))
