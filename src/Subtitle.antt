-- ===== src/Subtitle.antt =====
-- core/domain/subtitle.py: cues and tracks, made only if their checks hold.
pub mod Order
use video_captioner_z.Base.{
  ℕ, String, Bool, true, false, not, ◌||◌, Option, none, some, List, [], ◌∷◌, ◌++◌, map, any,
  contains, distinct, length, ltb, leb, ◌==◌, if◌then◌else◌, Result, ok, err, AppError, app_error,
  ◌>>=◌, ◌>>◌, raise_if,
}
use video_captioner_z.Text.{codes, is_blank}
use video_captioner_z.Json.{ℤ, pos, negsuc, Value, int}
use video_captioner_z.Unicode.{UnicodeData, is_canonical}
use video_captioner_z.Transcript.{are_bad_ids, is_empty}

abbrev pub cue_error : String → AppError
cue_error reason = app_error "subtitle.invalid" reason

-- `_text`
unfoldable pub require_text : String → Result (Unit {0})
unfolding is_blank
require_text value = raise_if (is_blank value) (cue_error "empty")

pub whole_ms : Value → Result ℤ
whole_ms (int n) = ok n
whole_ms _ = err (cue_error "integer_ms")

pub rising_times : ℤ → ℤ → Result (ℕ × ℕ)
rising_times (pos a) (pos b) = do raise_if (leb b a) (cue_error "timestamp"); ok (a, b)
rising_times _ _ = err (cue_error "timestamp")

-- `_time_range`
unfoldable pub cue_times : Value → Value → Result (ℕ × ℕ)
unfolding whole_ms rising_times
cue_times start_ms end_ms = do a ← whole_ms start_ms; b ← whole_ms end_ms; rising_times a b

-- `_integer_revision`
unfoldable pub check_revision : Value → Result ℕ
check_revision (int (pos n)) = ok n
check_revision (int (negsuc n)) = err (cue_error "negative")
check_revision _ = err (cue_error "integer")

pub record SubtitleCue : Type 0 where
  pub id : String
  pub start_ms : ℕ
  pub end_ms : ℕ
  pub source_word_ids : List String
  pub source_text : String
  pub translated_text : Option String
  pub lines : List String

-- blank, or broken by a line feed or a carriage return
unfoldable pub is_bad_line : String → Bool
unfolding is_blank
is_bad_line line = is_blank line || any (λ c. (c == 10) || (c == 13)) (codes line)

module _ (unicode : UnicodeData) where
  -- `any(normalize_text(line) != line for line in lines)`
  unfoldable pub some_not_canonical : List String → Result Bool
  some_not_canonical [] = ok false
  some_not_canonical (line ∷ lines) = do
    canonical ← is_canonical unicode line
    if canonical then some_not_canonical lines else ok true

  pub translation_differs : Option String → Result Bool
  translation_differs none = ok false
  translation_differs (some text) = do canonical ← is_canonical unicode text; ok (not canonical)

  -- `SubtitleCue(...)` with its checks
  unfoldable pub subtitle_cue :
      String
      → Value
      → Value
      → List String
      → String
      → Option String
      → List String
      → Result SubtitleCue
  unfolding require_text cue_times are_bad_ids some_not_canonical translation_differs is_bad_line
  subtitle_cue id start_ms end_ms word_ids text translated lines = do
    require_text id
    (a, b) ← cue_times start_ms end_ms
    raise_if (are_bad_ids word_ids) (cue_error "duplicate_or_empty")
    require_text text
    canonical ← is_canonical unicode text
    raise_if (not canonical) (cue_error "not_canonical")
    differs ← translation_differs translated
    raise_if differs (cue_error "not_canonical")
    raise_if (is_empty lines || ltb 2 (length lines) || any is_bad_line lines) (cue_error "empty")
    loose ← some_not_canonical lines
    raise_if loose (cue_error "not_canonical")
    ok (record {
      id = id;
      start_ms = a;
      end_ms = b;
      source_word_ids = word_ids;
      source_text = text;
      translated_text = translated;
      lines = lines;
    })

pub record SubtitleTrack : Type 0 where
  pub id : String
  pub source_transcript_id : String
  pub language : Option String
  pub cues : List SubtitleCue
  pub revision : ℕ
  pub policy_signature : String

-- the loop over `pairwise(cues)`: a cue starts before the one before it ends
unfoldable pub has_overlap : List SubtitleCue → Bool
has_overlap [] = false
has_overlap (c ∷ []) = false
has_overlap (c ∷ d ∷ rest) = ltb d.start_ms c.end_ms || has_overlap (d ∷ rest)

-- the loop over the words of all the cues, `assigned` in order of entry
unfoldable pub assign_once : List String → List String → Result (List String)
assign_once [] assigned = ok assigned
assign_once (id ∷ ids) assigned = do
  raise_if (contains assigned id) (cue_error "multiple_assignment")
  assign_once ids (assigned ++ id ∷ [])

abbrev pub all_source_ids : List SubtitleCue → List String
all_source_ids [] = []
all_source_ids (c ∷ cues) = c.source_word_ids ++ all_source_ids cues

pub check_language : Option String → Result (Unit {0})
check_language none = ok tt
check_language (some language) = require_text language

-- `SubtitleTrack(...)` with its checks
unfoldable pub subtitle_track :
    String → String → Option String → List SubtitleCue → Value → String → Result SubtitleTrack
unfolding require_text check_language check_revision has_overlap assign_once
subtitle_track id transcript_id language cues revision signature = do
  require_text id
  require_text transcript_id
  check_language language
  number ← check_revision revision
  raise_if (not (distinct (map (λ (c : SubtitleCue). c.id) cues))) (cue_error "duplicate_ids")
  raise_if (has_overlap cues) (cue_error "overlap_or_order")
  assigned ← assign_once (all_source_ids cues) []
  require_text signature
  ok (record {
    id = id;
    source_transcript_id = transcript_id;
    language = language;
    cues = cues;
    revision = number;
    policy_signature = signature;
  })
